-- ===== src/Auth/OAuth/Once.antt =====
-- The ticket of a callback is good for one exchange.
use webbuilder.Base.{
  ◌≤◌, String, Bool, true, ◌≡◌, refl, Option, List, [], ◌∷◌, length, length-append, if_keeps,
  or_else, arith,
}
use webbuilder.Base.Exec.{Result, ok, err}
use webbuilder.Auth.Session.{Browser}
use webbuilder.Auth.Account.{UserData}
use webbuilder.Auth.OAuth.{
  Callback, Event, mounted, unmounted, exchanged, user_answered, is_not_started, start_exchange,
  set_up, exchange_failed, after_save, after_user, on_exchanged, on_user, step, run,
}

-- one ticket was sent at most, and none while no exchange has been started
pub record IsOnce (c : Callback) : Type 0 where
  pub unsent : is_not_started c.exchange ≡ true → length c.posts ≡ 0
  pub once : length c.posts ≤ 1

module _ (param : (name hash : String) → Option String) (accepts : String → Bool)
    (stringify : UserData → String) where
  set_up-IsOnce : (c : Callback) → IsOnce c → IsOnce (set_up param c)
  unfolding set_up start_exchange
  set_up-IsOnce c h =
      ground (arith, length-append c.posts (or_else (param "ticket" c.hash) "" ∷ []))

  same-IsOnce : (c d : Callback) → d.posts ≡ c.posts → d.exchange ≡ c.exchange → IsOnce c → IsOnce d
  same-IsOnce c d a b h = record { unsent = λ e. rw a (h.unsent (rw b at e)); once = rw a h.once }

  exchange_failed-IsOnce : (c : Callback) → IsOnce c → IsOnce (exchange_failed c)
  unfolding exchange_failed
  exchange_failed-IsOnce c h = if_keeps IsOnce c.live (same-IsOnce c _ refl refl h) h

  after_save-IsOnce :
      (c : Callback) (r : Result (Unit {0})) (b : Browser) → IsOnce c → IsOnce (after_save c (r, b))
  unfolding after_save
  after_save-IsOnce c (ok _) b h = same-IsOnce c _ refl refl h
  after_save-IsOnce c (err message) b h = exchange_failed-IsOnce _ (same-IsOnce c _ refl refl h)

  after_user-IsOnce :
      (c : Callback) (r : Result (Unit {0})) (b : Browser) → IsOnce c → IsOnce (after_user c (r, b))
  unfolding after_user
  after_user-IsOnce c (ok _) b h = same-IsOnce c _ refl refl h
  after_user-IsOnce c (err message) b h = exchange_failed-IsOnce _ (same-IsOnce c _ refl refl h)

  step-IsOnce :
      (event : Event) (c : Callback) → IsOnce c → IsOnce (step param accepts stringify event c)
  unfolding step on_exchanged on_user
  step-IsOnce mounted c h = set_up-IsOnce c h
  step-IsOnce unmounted c h = same-IsOnce c _ refl refl h
  step-IsOnce (exchanged uuid (err message)) c h = exchange_failed-IsOnce c h
  step-IsOnce (exchanged uuid (ok session)) c h =
      if_keeps IsOnce c.live (after_save-IsOnce c _ _ h) h
  step-IsOnce (user_answered (err message)) c h = exchange_failed-IsOnce c h
  step-IsOnce (user_answered (ok user)) c h = if_keeps IsOnce c.live (after_user-IsOnce c _ _ h) h

  -- However often the effect is set up and cleaned up, and whatever is answered, the hook sends
  -- one ticket at most, from a state in which it has sent none without an exchange and at most one.
  pub run-IsOnce :
      (events : List Event) (c : Callback)
      → IsOnce c
      → IsOnce (run param accepts stringify events c)
  unfolding run
  run-IsOnce [] c h = h
  run-IsOnce (event ∷ events) c h =
      run-IsOnce events (step param accepts stringify event c) (step-IsOnce event c h)
