-- ===== src/Http/Services/Tests.antt =====
-- Requests of a signed-in user, and the address of the socket.
use webbuilder.Base.{String, ◌≡◌, refl, none, some}
use webbuilder.Http.Interceptors.{on_request}
use webbuilder.Http.Services.{read_file, of_files, call_of, request_of, get_ws_url}
use webbuilder.Http.Services.Credentials.{IsSent, on_request-call_of}
use webbuilder.Samples.{signed_in}

abbrev encode : String → String
encode s = s

derived_address :
    get_ws_url none (some (record { protocol = "https:"; host = "a.b" })) ≡ "wss://a.b"
unfolding get_ws_url
derived_address = refl

server_address : get_ws_url (some "") none ≡ "ws://localhost:8000"
unfolding get_ws_url
server_address = refl

on_request-call_of_example :
    IsSent signed_in "t1"
      (of_files (read_file "p" "a.ts" ""))
      (on_request signed_in (request_of (call_of encode (of_files (read_file "p" "a.ts" "")))))
on_request-call_of_example =
    on_request-call_of encode (of_files (read_file "p" "a.ts" "")) signed_in "t1" refl refl
