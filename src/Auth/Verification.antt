-- ===== src/Auth/Verification.antt =====
-- `useEmailVerification` of frontend/hooks/auth/useEmailVerification.ts, cut at its awaits.
-- `token_in` reads the parameter `token` of a URL fragment, as `URLSearchParams` does.
pub mod Outcome
mod Tests
use webbuilder.Base.{String, Bool, true, false, Option, none, some, if◌then◌else◌, or_else, truthy}
use webbuilder.Base.Exec.{Result, ok, err}
use webbuilder.Auth.Session.{Browser, LoginResponse, save_session}
use webbuilder.Auth.Account.{UserData, set_user_data}

pub record Verification : Type 0 where
  pub token : String
  pub email : String
  pub ready : Bool
  pub busy : Bool
  pub message : String
  pub error : String
  pub hash : String
  pub route : Option String
  pub browser : Browser

unfoldable pub read_link : (token_in : String → Option String) → Verification → Verification
read_link token_in v =
    if truthy (token_in v.hash)
    then record v { token = or_else (token_in v.hash) ""; hash = ""; ready = true }
    else record v { ready = true }

-- `confirm`, up to its first await
unfoldable pub confirm : Verification → Verification
confirm v = record v { busy = true; error = "" }

unfoldable pub confirm_failed : String → Verification → Verification
confirm_failed message v = record v { error = message; token = ""; busy = false }

pub data Then : Type 0 where
  done : Verification → Then
  get_current_user : Verification → Then

unfoldable pub after_save : Verification → Result (Unit {0}) × Browser → Then
after_save v (ok _, b) = get_current_user (record v { browser = b })
after_save v (err message, b) = done (confirm_failed message (record v { browser = b }))

unfoldable pub after_user : Verification → Result (Unit {0}) × Browser → Verification
after_user v (ok _, b) = record v { browser = b; route = some "/profile" }
after_user v (err message, b) = confirm_failed message (record v { browser = b })

module _ (accepts : String → Bool) (stringify : UserData → String) where
  unfoldable pub on_confirmed : (uuid : String) → Result LoginResponse → Verification → Then
  on_confirmed uuid (err message) v = done (confirm_failed message v)
  on_confirmed uuid (ok session) v = after_save v (save_session accepts uuid session v.browser)

  unfoldable pub on_user : Result UserData → Verification → Verification
  on_user (err message) v = confirm_failed message v
  on_user (ok user) v = after_user v (set_user_data accepts (stringify user) v.browser)

-- `requestVerification`, up to its await, and what follows
unfoldable pub request_verification : Verification → Verification
request_verification v = record v { busy = true; error = ""; message = "" }

unfoldable pub on_requested : Result String → Verification → Verification
on_requested (ok message) v = record v { message = message; busy = false }
on_requested (err message) v = record v { error = message; busy = false }
