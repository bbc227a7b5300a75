-- ===== src/Chat/Connection/Reconnect.antt =====
-- What follows a socket that closes.
use webbuilder.Base.{
  ℕ, suc, zero, ◌+◌, ◌*◌, ◌^◌, min, sym, concat, ◌≡◌, ◌≢◌, refl, ap, ◌∙◌, ◌⊎◌, String, inl, inr,
  is_some, or_else, Bool, true, false, ◌&&◌, Option, none, some, truthy, arith, eqb, eq_iff,
  same_text, same_text-eq, Bool-cases,
}
use webbuilder.Auth.Session.{Browser, get_session_id}
use webbuilder.Chat.Connection.{
  Socket, Connection, delay, connect, on_close, on_user_checked, on_retry, give_up, set_error,
  is_gone, is_renewed,
}

-- The server closes the current socket, and the timeout fires.
unfoldable pub lose : (url id : String) → Browser → Option Socket → Connection → Connection
lose url id b none c = c
lose url id b (some ws) c = on_retry url id b (on_close ws 1006 c)

-- `n` sockets in a row are lost
unfoldable pub outage : (url id : String) → Browser → ℕ → Connection → Connection
outage url id b zero c = c
outage url id b (suc n) c = let q = outage url id b n c in lose url id b q.current q

-- A mounted connection that has a socket.
pub record IsTrying (c : Connection) : Type 0 where
  pub mounted : c.disposed ≡ false
  pub socket : is_some c.current ≡ true

-- The socket with number `made` that a browser with a token opens.
abbrev pub socket_of : (url id : String) → Browser → ℕ → Socket
socket_of url id b made = record {
  id = made;
  url = concat url (concat "/ws/" id);
  token = or_else b.auth_token "";
  session_id = get_session_id b;
}

-- what the loss of one socket leaves, for the attempts and the sockets before it
record IsReopened (url id : String) (b : Browser) (attempts made : ℕ) (c : Connection)
    : Type 0 where
  still_mounted : c.disposed ≡ false
  replaced : c.current ≡ some (socket_of url id b made)
  attempted : c.attempt ≡ suc attempts
  opened : c.sockets ≡ suc made

eqb_self : (n : ℕ) → eqb n n ≡ true
eqb_self n = ground arith

current-IsGone :
    (c : Connection) (ws : Socket) → c.disposed ≡ false → c.current ≡ some ws → is_gone ws c ≡ false
current-IsGone c ws d e = rw (d, e, eqb_self ws.id) refl

lose-IsReopened :
    (url id : String) (b : Browser) (o : Option Socket) (c : Connection)
    → truthy b.auth_token ≡ true
    → c.current ≡ o
    → IsTrying c
    → IsReopened url id b c.attempt c.sockets (lose url id b o c)
unfolding lose on_retry on_close connect set_error
lose-IsReopened url id b none c t e h = cc (e, h.socket)
lose-IsReopened url id b (some ws) c t e h =
    rw (current-IsGone c ws h.mounted e, h.mounted, t)
      (record {
        still_mounted = refl;
        replaced = refl;
        attempted = omega arith;
        opened = omega arith;
      })

outage-IsReopened :
    (url id : String) (b : Browser) (n : ℕ) (c : Connection)
    → truthy b.auth_token ≡ true
    → IsTrying c
    → IsReopened url id b (c.attempt + n) (c.sockets + n) (outage url id b (suc n) c)
unfolding outage
outage-IsReopened url id b zero c t h =
    rw (plus_zero c.attempt, plus_zero c.sockets) (lose-IsReopened url id b c.current c t refl h)
  where
    plus_zero : (k : ℕ) → k + 0 ≡ k
    plus_zero k = omega arith
outage-IsReopened url id b (suc n) c t h =
    let k = outage-IsReopened url id b n c t h in
    let q = outage url id b (suc n) c in
    let trying : IsTrying q = record { mounted = k.still_mounted; socket = rw (k.replaced) refl } in
    rw (plus_suc c.attempt, plus_suc c.sockets, sym k.attempted, sym k.opened)
      (lose-IsReopened url id b q.current q t refl trying)
  where
    plus_suc : (k : ℕ) → k + suc n ≡ suc (k + n)
    plus_suc k = omega arith

retry-on_close :
    (ws : Socket) (c : Connection)
    → is_gone ws c ≡ false
    → (on_close ws 1006 c).retry ≡ some (min (1000 * 2 ^ c.attempt) 10000)
unfolding on_close set_error delay
retry-on_close ws c g = rw g refl

-- When a mounted hook with a socket and a token has lost some sockets in a row, one at least, its
-- socket is one that was opened after the last loss, for the chat and with the browser's token and
-- session, one was opened for each that was lost, and if that one is lost too, the wait before
-- the next is 1000 milliseconds, doubled for each loss since the last socket that opened, and at
-- most 10000.
pub retry-outage :
    (url id : String) (b : Browser) (n : ℕ) (c : Connection)
    → truthy b.auth_token ≡ true
    → IsTrying c
    → let q = outage url id b (suc n) c in
      let ws = socket_of url id b (c.sockets + n) in
      (q.current ≡ some ws)
      × (q.sockets ≡ c.sockets + suc n)
      × ((on_close ws 1006 q).retry ≡ some (min (1000 * 2 ^ (c.attempt + suc n)) 10000))
retry-outage url id b n c t h =
    let k = outage-IsReopened url id b n c t h in
    let q = outage url id b (suc n) c in
    (
      k.replaced,
      k.opened ∙ omega arith,
      retry-on_close _ q (current-IsGone q _ k.still_mounted k.replaced)
          ∙ ap (λ x. some (min (1000 * 2 ^ x) 10000)) (k.attempted ∙ omega arith),
    )

has_token : (b : Browser) → truthy (get_session_id b) ≡ true → truthy b.auth_token ≡ true
unfolding get_session_id
has_token b h = ground arith

token-fresh :
    (o : Option String) (t : String)
    → truthy o ≡ true
    → same_text o (some t) ≡ false
    → or_else o "" ≢ t
token-fresh none t h d = λ e. cc
token-fresh (some s) t h d = λ e. ground (arith, eq_iff s t)

-- the socket that replaces `ws`
pub record IsReplaced (ws : Socket) (c : Connection) : Type 0 where
  pub new : Socket
  pub is_current : c.current ≡ some new
  pub new_token : new.token ≢ ws.token
  pub same_session : new.session_id ≡ ws.session_id

connect-IsReplaced :
    (url id : String) (b : Browser) (ws : Socket) (c : Connection)
    → c.disposed ≡ false
    → truthy ws.session_id ≡ true
    → same_text (get_session_id b) ws.session_id ≡ true
    → same_text b.auth_token (some ws.token) ≡ false
    → IsReplaced ws (connect url id b c)
unfolding connect
connect-IsReplaced url id b ws c d s e f =
    let session = same_text-eq (get_session_id b) ws.session_id e in
    let token = has_token b (rw session s) in
    rw (d, token)
      (record {
        new = _;
        is_current = refl;
        new_token = token-fresh b.auth_token ws.token token f;
        same_session = session;
      })

on_close-policy :
    (ws : Socket) (c : Connection)
    → is_gone ws c ≡ false
    → on_close ws 1008 c ≡ record c { ws_connected = false }
unfolding on_close
on_close-policy ws c g = rw g refl

mounted-of_current : (ws : Socket) (c : Connection) → is_gone ws c ≡ false → c.disposed ≡ false
mounted-of_current ws c g = ground arith

user_checked_or_given_up :
    (url id : String) (b : Browser) (ws : Socket) (ok : Bool) (c : Connection)
    → is_gone ws c ≡ false
    → truthy ws.session_id ≡ true
    → let q = on_user_checked url id b ws ok c in (q ≡ give_up c) ⊎ ((ok ≡ true) × IsReplaced ws q)
unfolding on_user_checked
user_checked_or_given_up url id b ws ok c g s = elim (Bool-cases (ok && is_renewed b ws)) [
  | inl r ↦
      rw (g, r)
        (inr (
          ground arith,
          connect-IsReplaced url id b ws c (mounted-of_current ws c g) s (ground arith)
              (ground arith),
        ))
  | inr r ↦ rw (g, r) (inl refl)
]

-- A socket of a session that the server's policy closes is replaced only in the same session and
-- by a socket with another token, after the user could be fetched; otherwise the hook gives up and
-- plans no reconnection.
pub on_user_checked-policy :
    (url id : String) (b : Browser) (ws : Socket) (ok : Bool) (c : Connection)
    → is_gone ws c ≡ false
    → truthy ws.session_id ≡ true
    → let q = on_user_checked url id b ws ok (on_close ws 1008 c) in
      (q ≡ give_up (record c { ws_connected = false })) ⊎ ((ok ≡ true) × IsReplaced ws q)
on_user_checked-policy url id b ws ok c g s =
    rw (on_close-policy ws c g) (user_checked_or_given_up url id b ws ok _ g s)
