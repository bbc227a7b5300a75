-- ===== src/Chat/Workspace.antt =====
-- `useChatWorkspace` of frontend/hooks/chat/useChatWorkspace.ts: sending a prompt, stopping a run,
-- and the progress of the run, as a step function. The chat is the one that the connection's
-- handler writes. What is posted goes into `starts` and `cancels`. A request's answer carries what
-- its handler had captured: the user of the render, or the run.
pub mod Starts
pub mod Turns
mod Tests
use webbuilder.Base.{
  ℕ, ◌+◌, String, Bool, true, false, not, ◌&&◌, ◌||◌, Option, none, some, List, [], ◌∷◌, ◌++◌,
  if◌then◌else◌, or_else, truthy, is_empty, trim, ltb,
}
use webbuilder.Base.Exec.{Result, ok, err}
use webbuilder.Auth.Session.{Browser}
use webbuilder.Auth.Account.{UserData, set_user_data}
use webbuilder.Chat.Handler.{Chat, Incoming, handle_web_socket_message}

pub record Workspace : Type 0 where
  pub chat : Chat
  pub input : String
  pub is_loading : Bool
  pub user_data : Option UserData
  pub follow_latest : Bool
  pub browser : Browser
  pub starts : List String
  pub cancels : List String
  -- how often the history was asked for
  pub resyncs : ℕ

-- what `runService.start` returns
pub record Start : Type 0 where
  pub run_id : String
  pub tokens_remaining : ℕ

unfoldable pub set_building : Bool → Workspace → Workspace
set_building b w = record w { chat = record w.chat { is_building = b } }

unfoldable pub set_error : Option String → Workspace → Workspace
set_error e w = record w { chat = record w.chat { error = e } }

unfoldable pub set_run_id : Option String → Workspace → Workspace
set_run_id r w = record w { chat = record w.chat { run_id = r } }

-- `if (wsRef.current?.readyState === WebSocket.OPEN) …`
unfoldable pub resync : (open_socket : Bool) → Workspace → Workspace
resync open_socket w = if open_socket then record w { resyncs = w.resyncs + 1 } else w

-- `parse_user` is `JSON.parse`, `none` where it throws
unfoldable pub load_initial_data : (String → Option UserData) → Workspace → Workspace
load_initial_data parse_user w = record w {
  is_loading = false;
  user_data =
      if truthy w.browser.user_data
      then elim (parse_user (or_else w.browser.user_data "")) [
        | none ↦ w.user_data
        | some u ↦ some u
      ]
      else w.user_data;
}

unfoldable pub handle_conversation_scroll :
    (scroll_height scroll_top client_height : ℕ) → Workspace → Workspace
handle_conversation_scroll scroll_height scroll_top client_height w = record w {
  follow_latest = ltb scroll_height (scroll_top + client_height + 100);
}

-- `handleSendMessage`, up to its await
unfoldable pub handle_send_message : Workspace → Workspace
unfolding set_building set_error
handle_send_message w =
    let prompt = trim w.input in
    if is_empty prompt || w.chat.is_building
    then w
    else record (set_error none (set_building true w)) {
      follow_latest = true;
      starts = w.starts ++ prompt ∷ [];
    }

unfoldable pub start_failed : String → Workspace → Workspace
unfolding set_building set_error
start_failed message w = set_error (some message) (set_building false w)

module _ (accepts : String → Bool) (stringify : UserData → String) where
  -- the copy of the user, with the tokens that are left
  unfoldable pub store_tokens_left : UserData → ℕ → Workspace → Result (Unit {0}) × Workspace
  store_tokens_left user tokens w =
      let updated = record user { tokens_remaining = tokens } in
      let (r, b) = set_user_data accepts (stringify updated) w.browser in
      elim r [
        | ok _ ↦ (ok tt, record w { browser = b; user_data = some updated })
        | err e ↦ (err e, w)
      ]

  -- what follows `await runService.start`
  unfoldable pub on_started :
      (open_socket : Bool) → Option UserData → Result Start → Workspace → Workspace
  on_started open_socket user (err message) w = start_failed message w
  on_started open_socket user (ok start) w =
      let q = record (set_run_id (some start.run_id) w) { input = "" } in
      elim user [
        | none ↦ resync open_socket q
        | some u ↦
            let (r, stored) = store_tokens_left u start.tokens_remaining q in
            elim r [ ok _ ↦ resync open_socket stored | err message ↦ start_failed message stored ]
      ]

-- `handleCancel`, up to its await
unfoldable pub handle_cancel : Workspace → Workspace
handle_cancel w =
    if truthy w.chat.run_id
    then record w { cancels = w.cancels ++ or_else w.chat.run_id "" ∷ [] }
    else w

unfoldable pub on_cancelled : (open_socket : Bool) → Result (Unit {0}) → Workspace → Workspace
on_cancelled open_socket (ok _) w = resync open_socket (set_run_id none (set_building false w))
on_cancelled open_socket (err message) w = set_error (some message) w

pub data Event : Type 0 where
  typed : String → Event
  sent : Event
  started : (open_socket : Bool) → Option UserData → Result Start → Event
  stopped : Event
  cancelled : (open_socket : Bool) → Result (Unit {0}) → Event
  progress : Incoming → Event

module _ (parse_date : String → Option ℕ) (accepts : String → Bool)
    (stringify : UserData → String) where
  unfoldable pub step : Event → Workspace → Workspace
  step (typed text) w = record w { input = text }
  step sent w = handle_send_message w
  step (started open_socket user answer) w = on_started accepts stringify open_socket user answer w
  step stopped w = handle_cancel w
  step (cancelled open_socket answer) w = on_cancelled open_socket answer w
  step (progress incoming) w = record w {
    chat = handle_web_socket_message parse_date w.chat incoming;
  }

  unfoldable pub run : List Event → Workspace → Workspace
  run [] w = w
  run (event ∷ events) w = run events (step event w)
