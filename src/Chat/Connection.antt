-- ===== src/Chat/Connection.antt =====
-- `useChatConnection` of frontend/hooks/chat/useChatConnection.ts as a step function. A WebSocket
-- is a number, with what the closures of its handlers hold; what is sent on it or closed goes into
-- a log. `onclose` is cut at its await: `user_checked` is the answer of
-- `authService.getCurrentUser`.
pub mod Backoff
pub mod Reconnect
pub mod Stale
mod Tests
use webbuilder.Base.{
  ℕ, ◌+◌, ◌*◌, ◌^◌, min, String, Bool, true, false, not, ◌&&◌, ◌||◌, Option, none, some, List, [],
  ◌∷◌, ◌++◌, if◌then◌else◌, is_some, or_else, truthy, same_text, eqb, concat,
}
use webbuilder.Auth.Session.{Browser, get_session_id}
use webbuilder.Chat.Handler.{Chat, Incoming, handle_web_socket_message}

pub record Socket : Type 0 where
  pub id : ℕ
  pub url : String
  -- `token` and `sessionId` of the call of `connect` that made it
  pub token : String
  pub session_id : Option String

pub data Outgoing : Type 0 where
  auth : String → Outgoing
  resync : Outgoing
  close : Outgoing

pub record Connection : Type 0 where
  pub disposed : Bool
  -- the delay of a timeout that is to call `connect`
  pub retry : Option ℕ
  pub attempt : ℕ
  pub ws_connected : Bool
  -- `wsRef.current`, and how many sockets have been made
  pub current : Option Socket
  pub sockets : ℕ
  pub sent : List (ℕ × Outgoing)
  pub chat : Chat
  -- the route that `router.push` was last given
  pub route : Option String

-- what `JSON.parse` makes of a frame
pub data Frame : Type 0 where
  unreadable : Frame
  resync_request : Frame
  progress : Incoming → Frame

-- `1000 * 2 ** attempt`, at most ten seconds
unfoldable pub delay : ℕ → ℕ
delay attempt = min (1000 * 2 ^ attempt) 10000

abbrev pub is_current : Socket → Connection → Bool
is_current ws c = elim c.current [ none ↦ false | some t ↦ eqb t.id ws.id ]

-- `disposed || wsRef.current !== ws`
abbrev pub is_gone : Socket → Connection → Bool
is_gone ws c = c.disposed || not (is_current ws c)

abbrev pub log : Socket → Outgoing → Connection → Connection
log ws out c = record c { sent = c.sent ++ (ws.id, out) ∷ [] }

unfoldable pub set_error : Option String → Connection → Connection
set_error e c = record c { chat = record c.chat { error = e } }

module _ (ws_url chat_id : String) where
  unfoldable pub connect : Browser → Connection → Connection
  connect b c =
      if c.disposed
      then c
      else if truthy b.auth_token
      then record c {
        current = some (record {
          id = c.sockets;
          url = concat ws_url (concat "/ws/" chat_id);
          token = or_else b.auth_token "";
          session_id = get_session_id b;
        });
        sockets = c.sockets + 1;
      }
      else record c { route = some "/signin" }

unfoldable pub on_open : Socket → Connection → Connection
on_open ws c =
    if c.disposed
    then log ws Outgoing.close c
    else set_error none
        (record (log ws (Outgoing.auth ws.token) c) { attempt = 0; ws_connected = true })

module _ (parse_date : String → Option ℕ) where
  unfoldable pub on_message : Socket → Frame → Connection → Connection
  on_message ws frame c = if is_gone ws c then c else elim frame [
    | Frame.unreadable ↦ c
    | Frame.resync_request ↦ log ws Outgoing.resync c
    | Frame.progress incoming ↦ record c {
      chat = handle_web_socket_message parse_date c.chat incoming;
    }
  ]

-- `onclose`, up to its await if the policy closed the socket
unfoldable pub on_close : Socket → ℕ → Connection → Connection
on_close ws code c =
    if is_gone ws c
    then c
    else let q = record c { ws_connected = false } in
      if eqb code 1008
      then q
      else record (set_error
          (some "Connection lost. Reconnecting to check your run; it may still be working.") q) {
            retry = some (delay c.attempt);
            attempt = c.attempt + 1;
          }

-- HTTP can renew an expired token: is it another one than the socket's, in the same session?
abbrev pub is_renewed : Browser → Socket → Bool
is_renewed b ws =
    same_text (get_session_id b) ws.session_id && not (same_text b.auth_token (some ws.token))

unfoldable pub give_up : Connection → Connection
give_up c = record c {
  chat = record c.chat {
    is_building = false;
    error = some "Could not reconnect. Check your connection and project access, then reload.";
  };
}

module _ (ws_url chat_id : String) where
  -- what follows the await; `ok` is false if `getCurrentUser` failed
  unfoldable pub on_user_checked : Browser → Socket → Bool → Connection → Connection
  on_user_checked b ws ok c =
      if is_gone ws c
      then c
      else if ok && is_renewed b ws
      then connect ws_url chat_id b c
      else give_up c

  -- the timeout fires
  unfoldable pub on_retry : Browser → Connection → Connection
  on_retry b c = if is_some c.retry then connect ws_url chat_id b (record c { retry = none }) else c

  -- the effect for a chat
  unfoldable pub mount : Browser → Connection → Connection
  mount b c = connect ws_url chat_id b (record c {
    disposed = false;
    retry = none;
    attempt = 0;
    chat = record c.chat {
      terminal_runs = [];
      messages = [];
      app_url = none;
      run_id = none;
      is_building = false;
    };
  })

-- `wsRef.current?.close()`
unfoldable pub close_current : Option Socket → Connection → Connection
close_current none c = c
close_current (some ws) c = log ws Outgoing.close c

unfoldable pub unmount : Connection → Connection
unfolding close_current
unmount c = record (close_current c.current c) { disposed = true; retry = none; current = none }

pub data Event : Type 0 where
  opened : Socket → Event
  message : Socket → Frame → Event
  failed : Socket → Event
  closed : Socket → ℕ → Event
  user_checked : Socket → Bool → Event
  timeout : Event

module _ (parse_date : String → Option ℕ) (ws_url chat_id : String) where
  unfoldable pub step : Browser → Event → Connection → Connection
  step b (opened ws) c = on_open ws c
  step b (message ws frame) c = on_message parse_date ws frame c
  step b (failed ws) c = log ws Outgoing.close c
  step b (closed ws code) c = on_close ws code c
  step b (user_checked ws ok) c = on_user_checked ws_url chat_id b ws ok c
  step b timeout c = on_retry ws_url chat_id b c

  unfoldable pub run : List (Browser × Event) → Connection → Connection
  run [] c = c
  run ((b, event) ∷ rest) c = run rest (step b event c)
