-- ===== src/Chat/Connection/Backoff.antt =====
-- How long the hook waits before it reconnects, and that it does.
use webbuilder.Base.{
  ℕ, suc, zero, ◌*◌, ◌^◌, ◌≤◌, min, ◌≡◌, refl, sym, ◌∙◌, String, is_some, ◌&&◌, Option, none, some,
  List, [], ◌∷◌, truthy, if_keeps, arith, eqb,
}
use webbuilder.Auth.Session.{Browser}
use webbuilder.Chat.Connection.{
  Socket, Connection, Event, Frame, opened, message, failed, closed, user_checked, timeout, delay,
  connect, on_open, on_message, on_close, on_user_checked, on_retry, give_up, set_error, step, run,
  is_gone, is_renewed, is_renewed,
}

two_pow-suc : (n : ℕ) → 2 ^ suc n ≡ 2 * 2 ^ n
two_pow-suc n = omega arith

one-le_two_pow : (n : ℕ) → 1 ≤ 2 ^ n
one-le_two_pow zero = omega arith
one-le_two_pow (suc n) = omega (arith, one-le_two_pow n, two_pow-suc n)

-- The wait doubles with each attempt until it is ten seconds, and never falls below one.
pub delay_lem :
    (n : ℕ)
    → (delay 0 ≡ 1000)
      × (delay (suc n) ≡ min (2 * delay n) 10000)
      × (1000 ≤ delay n)
      × (delay n ≤ 10000)
unfolding delay
delay_lem n =
    (omega arith, omega (arith, two_pow-suc n), omega (arith, one-le_two_pow n), omega arith)

-- A pending reconnection waits between one second and ten.
unfoldable pub IsPaced : Connection → Type 0
IsPaced c = (d : ℕ) → c.retry ≡ some d → (1000 ≤ d) × (d ≤ 10000)

delay-IsPaced : (n : ℕ) → (1000 ≤ delay n) × (delay n ≤ 10000)
unfolding delay
delay-IsPaced n = (omega (arith, one-le_two_pow n), omega arith)

-- a connection that waits as another does
same-IsPaced : (c q : Connection) → q.retry ≡ c.retry → IsPaced c → IsPaced q
unfolding IsPaced
same-IsPaced c q e h = λ d p. h d (sym e ∙ p)

planned-IsPaced : (n : ℕ) (q : Connection) → q.retry ≡ some (delay n) → IsPaced q
unfolding IsPaced
planned-IsPaced n q e = λ d p. ground (arith, delay-IsPaced n)

idle-IsPaced : (q : Connection) → q.retry ≡ none → IsPaced q
unfolding IsPaced
idle-IsPaced q e = λ d p. cc

connect-IsPaced :
    (url id : String) (b : Browser) (c : Connection) → IsPaced c → IsPaced (connect url id b c)
unfolding connect
connect-IsPaced url id b c h =
    if_keeps IsPaced c.disposed h
      (if_keeps IsPaced (truthy b.auth_token) (same-IsPaced c _ refl h) (same-IsPaced c _ refl h))

on_close-IsPaced :
    (ws : Socket) (code : ℕ) (c : Connection) → IsPaced c → IsPaced (on_close ws code c)
unfolding on_close set_error
on_close-IsPaced ws code c h =
    if_keeps IsPaced (is_gone ws c) h (
      if_keeps IsPaced (eqb code 1008) (same-IsPaced c _ refl h) (planned-IsPaced c.attempt _ refl))

on_retry-IsPaced :
    (url id : String) (b : Browser) (c : Connection) → IsPaced c → IsPaced (on_retry url id b c)
unfolding on_retry
on_retry-IsPaced url id b c h =
    if_keeps IsPaced (is_some c.retry) (connect-IsPaced url id b _ (idle-IsPaced _ refl)) h

retry-on_message :
    (parse_date : String → Option ℕ) (ws : Socket) (frame : Frame) (c : Connection)
    → (on_message parse_date ws frame c).retry ≡ c.retry
unfolding on_message
retry-on_message parse_date ws frame c = ground arith

step-IsPaced :
    (parse_date : String → Option ℕ) (url id : String) (b : Browser) (event : Event)
    (c : Connection)
    → IsPaced c
    → IsPaced (step parse_date url id b event c)
unfolding step on_open on_user_checked give_up set_error
step-IsPaced parse_date url id b (opened ws) c h =
    if_keeps IsPaced c.disposed (same-IsPaced c _ refl h) (same-IsPaced c _ refl h)
step-IsPaced parse_date url id b (message ws frame) c h =
    same-IsPaced c _ (retry-on_message parse_date ws frame c) h
step-IsPaced parse_date url id b (failed ws) c h = same-IsPaced c _ refl h
step-IsPaced parse_date url id b (closed ws code) c h = on_close-IsPaced ws code c h
step-IsPaced parse_date url id b (user_checked ws ok) c h = if_keeps IsPaced (is_gone ws c) h (
    if_keeps IsPaced (ok && is_renewed b ws) (connect-IsPaced url id b c h)
      (same-IsPaced c _ refl h))
step-IsPaced parse_date url id b timeout c h = on_retry-IsPaced url id b c h

-- If the reconnection that is planned at first, if any, is one to ten seconds away, then whatever
-- happens to the connection, so is every later one.
pub run-IsPaced :
    (parse_date : String → Option ℕ) (url id : String) (events : List (Browser × Event))
    (c : Connection)
    → IsPaced c
    → IsPaced (run parse_date url id events c)
unfolding run
run-IsPaced parse_date url id [] c h = h
run-IsPaced parse_date url id ((b, event) ∷ rest) c h =
    run-IsPaced parse_date url id rest _ (step-IsPaced parse_date url id b event c h)
