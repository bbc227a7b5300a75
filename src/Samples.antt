-- ===== src/Samples.antt =====
-- Values that the tests of several modules use: a signed-in browser, a user, an empty chat.
use webbuilder.Base.{ℕ, String, Bool, true, false, Option, none, some, List, [], ◌∷◌}
use webbuilder.Auth.Session.{Browser, LoginResponse}
use webbuilder.Auth.Account.{UserData}
use webbuilder.Chat.Types.{EventName, RunEvent, RunStatus, ToolCall, ToolStatus}
use webbuilder.Json.{Json, str, num, arr, obj, Items, nil, cons, field, end}
use webbuilder.Chat.Handler.{Chat}

abbrev pub signed_in : Browser
signed_in = record {
  auth_token = some "t1";
  refresh_token = some "r1";
  auth_session_id = some "s";
  user_data = none;
  cache = record { files = []; cached_bytes = 0 };
  pathname = "/chat/c";
}

abbrev pub signed_out : Browser
signed_out = record signed_in { auth_token = none; refresh_token = none; auth_session_id = none }

abbrev pub login : LoginResponse
login = record { access_token = "t2"; refresh_token = "r2"; token_type = "bearer" }

abbrev pub account : UserData
account = record {
  id = 1;
  email = "a@b.c";
  name = "Ada";
  tokens_remaining = 5;
  tokens_reset_at = none;
  credits_unlimited = none;
  bio = none;
  email_verified = some true;
  created_at = none;
  providers = none;
  cost_allowance = none;
}

abbrev pub no_chat : Chat
no_chat = record {
  terminal_runs = [];
  is_building = false;
  run_id = none;
  messages = [];
  app_url = none;
  error = none;
}

abbrev pub no_dates : String → Option ℕ
no_dates s = none

-- a storage that takes every value, and one that takes none
abbrev pub takes_all : String → Bool
takes_all v = true

abbrev pub takes_none : String → Bool
takes_none v = false

abbrev pub stringify : UserData → String
stringify user = user.email

abbrev pub run_event : EventName → RunEvent
run_event name = record {
  e = name;
  run_id = "r1";
  event_id = "r1:9";
  created_at = "9";
  name = none;
  call_id = none;
  ok = some true;
  status = some RunStatus.succeeded;
  message = some "Done";
  output = none;
  details = none;
  duration_ms = none;
  url = none;
  checks = none;
}

-- a call of a tool that edits files, and one that has recorded which
abbrev pub tool_call : ToolStatus → ToolCall
tool_call status = record {
  id = some "c1";
  name = "write_files";
  status = status;
  output = none;
  duration_ms = none;
  details = none;
  run_id = some "r1";
  event_id = some "r1:2";
}

abbrev items : List String → Items
items [] = nil
items (s ∷ rest) = cons (str s) (items rest)

abbrev pub recorded : List String → ToolCall
recorded files = record (tool_call ToolStatus.success) {
  details = some (obj (field "version" (num 1) (field "changed_files" (arr (items files)) end)));
}

abbrev pub no_json : String → Option Json
no_json s = none
