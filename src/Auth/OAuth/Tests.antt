-- ===== src/Auth/OAuth/Tests.antt =====
-- A callback whose effect is set up twice.
use webbuilder.Base.{
  arith, String, ◌≡◌, refl, false, Option, none, some, List, [], ◌∷◌, if◌then◌else◌, ◌==◌,
}
use webbuilder.Base.Exec.{ok, err}
use webbuilder.Auth.Session.{save_session}
use webbuilder.Auth.OAuth.{
  Callback, Event, mounted, unmounted, exchanged, user_answered, not_started, error_text, step, run,
}
use webbuilder.Auth.OAuth.Once.{IsOnce, run-IsOnce}
use webbuilder.Samples.{signed_out, login, account, takes_all, stringify}

abbrev landed : Callback
landed = record {
  error = "";
  exchange = not_started;
  callback_error = "";
  live = false;
  hash = "ticket=k";
  posts = [];
  route = none;
  browser = signed_out;
}

abbrev param : (name hash : String) → Option String
param name hash = if name == "ticket" then some "k" else none

abbrev twice : List Event
twice = mounted ∷ unmounted ∷ mounted ∷ exchanged "s1" (ok login) ∷ user_answered (ok account) ∷ []

chat_opened : (run param takes_all stringify twice landed).route ≡ some "/chat"
unfolding run step webbuilder.Auth.OAuth.on_user webbuilder.Auth.OAuth.on_exchanged
    webbuilder.Auth.OAuth.set_up webbuilder.Auth.OAuth.start_exchange
    webbuilder.Auth.OAuth.after_save save_session webbuilder.Auth.Session.store_tokens
    webbuilder.Auth.Session.set_refresh_token webbuilder.Auth.Session.set_auth_token
    webbuilder.Auth.Session.set_auth_session_id webbuilder.Auth.Session.remove_user_data
    webbuilder.Auth.OAuth.after_user webbuilder.Auth.Account.set_user_data
chat_opened = refl

refusal :
    (run
      (λ name hash. none)
      takes_all
      stringify
      (mounted ∷ exchanged "s1" (err "") ∷ [])
      landed).error
    ≡ error_text "oauth_failed"
unfolding run step webbuilder.Auth.OAuth.on_exchanged webbuilder.Auth.OAuth.exchange_failed
    webbuilder.Auth.OAuth.set_up webbuilder.Auth.OAuth.start_exchange
refusal = refl

run-IsOnce_example : IsOnce (run param takes_all stringify twice landed)
run-IsOnce_example =
    run-IsOnce param takes_all stringify twice landed
      (record { unsent = λ e. refl; once = omega arith })
