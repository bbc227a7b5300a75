-- ===== src/Chat/Handler.antt =====
-- `handleWebSocketMessage` of frontend/socket/handleChatEvent.ts. The React setters and the set of
-- terminal runs that the handler is given are the fields of `Chat`. `JSON.parse` is outside: a
-- message comes as what it parsed to, or as `malformed`.
pub mod Live
pub mod Snapshot
use webbuilder.Base.{
  ℕ, String, Bool, true, false, not, ◌&&◌, ◌||◌, Option, none, some, List, [], ◌∷◌, ◌++◌, any, find,
  filter, is_some, if◌then◌else◌, or_else, ◌==◌, is_empty, truthy,
}
use webbuilder.Chat.Types.{
  RunStatus, succeeded, Message, RunEvent, RunSnapshot, EventName, run_started, stage, tool_started,
  run_finished,
}
use webbuilder.Chat.Events.{apply_run_event, is_run_finished}
use webbuilder.Chat.Consolidate.{consolidate_messages}
use webbuilder.Chat.Restore.{is_running, restore_runs}

pub record Chat : Type 0 where
  pub terminal_runs : List String
  pub is_building : Bool
  pub run_id : Option String
  pub messages : List Message
  pub app_url : Option String
  pub error : Option String

pub record History : Type 0 where
  pub runs : Option (List RunSnapshot)
  pub messages : Option (List Message)
  pub app_url : Option String

pub data Incoming : Type 0 where
  malformed : Incoming
  history : History → Incoming
  event : RunEvent → Incoming

abbrev pub contains : List String → String → Bool
contains ids id = any (λ x. x == id) ids

-- `Set.add`
abbrev pub add : String → List String → List String
add id ids = if contains ids id then ids else ids ++ id ∷ []

unfoldable pub add_terminal : List String → List RunSnapshot → List String
add_terminal ids [] = ids
add_terminal ids (run ∷ runs) =
    add_terminal (if is_running run.status then ids else add run.id ids) runs

-- New runs render their own terminal summary; preserve legacy chat history.
unfoldable pub is_kept : List RunSnapshot → Message → Bool
is_kept runs m =
    not (elim m.event_type [ none ↦ false | some t ↦ t == "run_summary" ])
    || not (any (λ (run : RunSnapshot). run.id == m.id) runs)

-- `url || null`
abbrev pub or_null : Option String → Option String
or_null o = if truthy o then o else none

module _ (parse_date : String → Option ℕ) where
  unfoldable pub on_history : Chat → History → Chat
  on_history c h =
      let runs = or_else h.runs [] in
      let kept = consolidate_messages (filter (is_kept runs) (or_else h.messages [])) in
      let active = find (λ (run : RunSnapshot). is_running run.status) runs in
      record {
        terminal_runs = add_terminal c.terminal_runs runs;
        messages = restore_runs parse_date kept runs;
        run_id = elim active [ none ↦ none | some run ↦ or_null (some run.id) ];
        is_building = is_some active;
        app_url = or_null h.app_url;
        error = none;
      }

abbrev pub is_start : EventName → Bool
is_start run_started = true
is_start stage = true
is_start tool_started = true
is_start _ = false

abbrev pub is_succeeded : Option RunStatus → Bool
is_succeeded (some succeeded) = true
is_succeeded _ = false

unfoldable pub on_event : Chat → RunEvent → Chat
on_event c e =
    if is_empty e.run_id
    then c
    else if contains c.terminal_runs e.run_id
    then c
    else let c = record c { messages = apply_run_event c.messages e } in
      let c = if is_start e.e then record c { run_id = some e.run_id; is_building = true } else c in
      if is_run_finished e.e
      then record c {
        terminal_runs = add e.run_id c.terminal_runs;
        run_id = none;
        is_building = false;
        error = none;
        app_url = if is_succeeded e.status && truthy e.url then e.url else none;
      }
      else c

module _ (parse_date : String → Option ℕ) where
  unfoldable pub handle_web_socket_message : Chat → Incoming → Chat
  handle_web_socket_message c malformed = record c {
    error = some "Could not read a progress update. Reconnect to reload run status.";
  }
  handle_web_socket_message c (history h) = on_history parse_date c h
  handle_web_socket_message c (event e) = on_event c e
