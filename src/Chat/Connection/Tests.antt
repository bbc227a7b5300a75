-- ===== src/Chat/Connection/Tests.antt =====
-- A connection to the chat of one signed-in browser.
use webbuilder.Base.{ℕ, ◌≡◌, ◌⊎◌, String, refl, true, false, Option, none, some, List, [], ◌∷◌}
use webbuilder.Auth.Session.{Browser, get_session_id}
use webbuilder.Chat.Handler.{Chat}
use webbuilder.Chat.Connection.{
  Socket, Connection, Event, delay, connect, mount, unmount, on_close, on_user_checked, give_up,
  run,
}
use webbuilder.Chat.Connection.Reconnect.{outage, retry-outage, on_user_checked-policy, IsReplaced}
use webbuilder.Chat.Connection.Stale.{HasOnlyClosed, run-unmount}

abbrev signed_in : Browser
signed_in = record {
  auth_token = some "t1";
  refresh_token = some "r1";
  auth_session_id = some "s";
  user_data = none;
  cache = record { files = []; cached_bytes = 0 };
  pathname = "/chat/c";
}

abbrev renewed : Browser
renewed = record signed_in { auth_token = some "t2" }

abbrev no_chat : Chat
no_chat = record {
  terminal_runs = [];
  is_building = false;
  run_id = none;
  messages = [];
  app_url = none;
  error = none;
}

abbrev first_socket : Socket
first_socket = record { id = 0; url = "ws://h/ws/c"; token = "t1"; session_id = some "s" }

abbrev connected : Connection
connected = record {
  disposed = false;
  retry = none;
  attempt = 0;
  ws_connected = true;
  current = some first_socket;
  sockets = 1;
  sent = [];
  chat = no_chat;
  route = none;
}

abbrev no_dates : String → Option ℕ
no_dates s = none

mount_connects :
    (mount "ws://h" "c" signed_in connected).current ≡ some (record first_socket { id = 1 })
unfolding mount connect get_session_id
mount_connects = refl

abbrev day : List (Browser × Event)
day = (signed_in, Event.closed first_socket 1006) ∷ (renewed, Event.timeout) ∷ []

third_wait : delay 3 ≡ 8000
unfolding delay
third_wait = refl

retry-outage_example :
    let q = outage "ws://h" "c" signed_in 3 connected in
    (q.current ≡ some (record first_socket { id = 3 }))
    × (q.sockets ≡ 4)
    × ((on_close (record first_socket { id = 3 }) 1006 q).retry ≡ some 8000)
unfolding get_session_id
retry-outage_example =
    retry-outage "ws://h" "c" signed_in 2 connected refl (record { mounted = refl; socket = refl })

on_user_checked-policy_example :
    let q =
      on_user_checked "ws://h" "c" renewed first_socket true
        (on_close first_socket 1008 connected) in
    (q ≡ give_up (record connected { ws_connected = false }))
    ⊎ ((true ≡ true) × IsReplaced first_socket q)
on_user_checked-policy_example =
    on_user_checked-policy "ws://h" "c" renewed first_socket true connected refl refl

run-unmount_example :
    HasOnlyClosed (unmount connected) (run no_dates "ws://h" "c" day (unmount connected))
run-unmount_example = run-unmount no_dates "ws://h" "c" day connected
