-- ===== src/Auth/Verification/Outcome.antt =====
-- How a confirmation ends.
use webbuilder.Base.{String, Bool, false, ◌≡◌, ◌≢◌, refl, inl, inr, some, Bool-cases}
use webbuilder.Base.Exec.{Result, ok, err}
use webbuilder.Auth.Session.{Browser, LoginResponse, save_session}
use webbuilder.Auth.Session.Laws.{IsSignedIn, save_session_lem}
use webbuilder.Auth.Account.{UserData, set_user_data}
use webbuilder.Auth.Verification.{
  Verification, Then, done, get_current_user, confirm_failed, after_save, after_user, on_confirmed,
  on_user,
}

-- The form is free, and has given up the link's token.
pub record IsRefused (v : Verification) : Type 0 where
  pub not_busy : v.busy ≡ false
  pub no_token : v.token ≡ ""

confirm_failed-IsRefused :
    (message : String) (v : Verification) → IsRefused (confirm_failed message v)
unfolding confirm_failed
confirm_failed-IsRefused message v = record { not_busy = refl; no_token = refl }

-- what the two answers lead to, when the browser is left alone between them
unfoldable pub outcome :
    (accepts : String → Bool) (stringify : UserData → String)
    → Result UserData
    → Then
    → Verification
outcome accepts stringify user (done v) = v
outcome accepts stringify user (get_current_user v) = on_user accepts stringify user v

-- The profile is opened, in the session of the link, with its user cached.
pub record IsConfirmed (token account : String) (v : Verification) : Type 0 where
  pub route : v.route ≡ some "/profile"
  pub stored : v.browser.auth_token ≡ some token
  pub cached : v.browser.user_data ≡ some account

pub data IsEnded (stringify : UserData → String)
    : Result LoginResponse → Result UserData → Verification → Type 0 where
  confirmed :
      {session : LoginResponse} {user : UserData} {v : Verification}
      → IsConfirmed session.access_token (stringify user) v
      → IsEnded stringify (ok session) (ok user) v
  refused :
      {session : Result LoginResponse} {user : Result UserData} {v : Verification}
      → IsRefused v
      → IsEnded stringify session user v

module _ (accepts : String → Bool) (stringify : UserData → String) where
  on_user_ends :
      (session : LoginResponse) (user : Result UserData) (v : Verification)
      → v.browser.auth_token ≡ some session.access_token
      → IsEnded stringify (ok session) user (on_user accepts stringify user v)
  unfolding on_user after_user set_user_data
  on_user_ends session (err message) v stored = refused (confirm_failed-IsRefused message v)
  on_user_ends session (ok user) v stored = elim (Bool-cases (accepts (stringify user))) [
    | inl t ↦ rw t (confirmed (record { route = refl; stored = stored; cached = refl }))
    | inr t ↦ rw t (refused (confirm_failed-IsRefused _ _))
  ]

  after_save_ends :
      (uuid : String) (session : LoginResponse) (user : Result UserData) (v : Verification)
      (r : Result (Unit {0})) (b : Browser)
      → (r ≡ ok tt → IsSignedIn uuid session b)
      → IsEnded stringify (ok session) user (outcome accepts stringify user (after_save v (r, b)))
  unfolding after_save outcome
  after_save_ends uuid session user v (ok tt) b h = on_user_ends session user _ (h refl).token
  after_save_ends uuid session user v (err message) b h =
      refused (confirm_failed-IsRefused message _)

  -- Whatever the two requests of a confirmation answer and whatever the storage accepts, either
  -- the profile is opened in the session that the server gave, with the user that it gave, or
  -- the form is free again and has given up the link's token; if a session id is given.
  pub on_confirmed_ends :
      (uuid : String) (session : Result LoginResponse) (user : Result UserData) (v : Verification)
      → uuid ≢ ""
      → IsEnded stringify session user
          (outcome accepts stringify user (on_confirmed accepts stringify uuid session v))
  unfolding on_confirmed outcome
  on_confirmed_ends uuid (err message) user v h = refused (confirm_failed-IsRefused message v)
  on_confirmed_ends uuid (ok session) user v h =
      let (r, b) = save_session accepts uuid session v.browser in
      after_save_ends uuid session user v r b (save_session_lem accepts uuid session v.browser h).0
