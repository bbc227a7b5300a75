-- ===== src/Auth/OAuth.antt =====
-- `useOAuthCallback` of frontend/hooks/auth/useOAuthCallback.ts as a step function. React may set
-- the effect up, clean it up and set it up again; `live` says that the last setup has not been
-- cleaned up. `param` reads a parameter of a URL fragment, as `URLSearchParams` does; the tickets
-- that were sent to the server go into `posts`.
pub mod Once
mod Tests
use webbuilder.Base.{
  String, Bool, true, false, not, ◌&&◌, Option, none, some, List, [], ◌∷◌, ◌++◌, if◌then◌else◌,
  or_else, truthy, is_empty, ◌==◌,
}
use webbuilder.Base.Exec.{Result, ok, err}
use webbuilder.Auth.Session.{Browser, LoginResponse, save_session}
use webbuilder.Auth.Account.{UserData, set_user_data}

-- the promise that `exchange.current` holds
pub data Exchange : Type 0 where
  not_started requested rejected : Exchange

pub record Callback : Type 0 where
  pub error : String
  pub exchange : Exchange
  pub callback_error : String
  pub live : Bool
  pub hash : String
  pub posts : List String
  pub route : Option String
  pub browser : Browser

abbrev pub oauth_failed : String
oauth_failed = "Sign-in was cancelled or could not be completed. Please try again."

-- `errors[code] || errors.oauth_failed`
abbrev pub error_text : String → String
error_text code =
    if code == "link_required"
    then "An account already uses this email. Sign in with email, then connect this provider from your profile."
    else if code == "verified_email_required"
    then "Your provider must have a verified email address before you can continue."
    else if code == "account_conflict"
    then "This provider is already connected to another account, or your account already has a different connection."
    else oauth_failed

abbrev pub is_not_started : Exchange → Bool
is_not_started not_started = true
is_not_started _ = false

module _ (param : (name hash : String) → Option String) where
  -- the branch that reads the fragment
  unfoldable pub start_exchange : Callback → Callback
  start_exchange c =
      let ticket = param "ticket" c.hash in
      let code =
        if truthy (param "error" c.hash)
        then or_else (param "error" c.hash) ""
        else if truthy ticket
        then ""
        else "oauth_failed" in
      let q = record c { callback_error = code; hash = "" } in
      if truthy ticket && is_empty code
      then record q { exchange = requested; posts = c.posts ++ or_else ticket "" ∷ [] }
      else record q { exchange = rejected }

  unfoldable pub set_up : Callback → Callback
  set_up c =
      let q = record c { live = true } in
      if is_not_started c.exchange && is_empty c.callback_error then start_exchange q else q

unfoldable pub exchange_failed : Callback → Callback
exchange_failed c = if c.live then record c { error = error_text c.callback_error } else c

unfoldable pub after_save : Callback → Result (Unit {0}) × Browser → Callback
after_save c (ok _, b) = record c { browser = b }
after_save c (err message, b) = exchange_failed (record c { browser = b })

unfoldable pub after_user : Callback → Result (Unit {0}) × Browser → Callback
after_user c (ok _, b) = record c { browser = b; route = some "/chat" }
after_user c (err message, b) = exchange_failed (record c { browser = b })

module _ (accepts : String → Bool) (stringify : UserData → String) where
  -- `.then`, up to its await
  unfoldable pub on_exchanged : (uuid : String) → Result LoginResponse → Callback → Callback
  on_exchanged uuid (err message) c = exchange_failed c
  on_exchanged uuid (ok session) c =
      if c.live then after_save c (save_session accepts uuid session c.browser) else c

  unfoldable pub on_user : Result UserData → Callback → Callback
  on_user (err message) c = exchange_failed c
  on_user (ok user) c =
      if c.live then after_user c (set_user_data accepts (stringify user) c.browser) else c

pub data Event : Type 0 where
  mounted : Event
  unmounted : Event
  exchanged : (uuid : String) → Result LoginResponse → Event
  user_answered : Result UserData → Event

module _ (param : (name hash : String) → Option String) (accepts : String → Bool)
    (stringify : UserData → String) where
  unfoldable pub step : Event → Callback → Callback
  step mounted c = set_up param c
  step unmounted c = record c { live = false }
  step (exchanged uuid answer) c = on_exchanged accepts stringify uuid answer c
  step (user_answered answer) c = on_user accepts stringify answer c

  unfoldable pub run : List Event → Callback → Callback
  run [] c = c
  run (event ∷ events) c = run events (step event c)
