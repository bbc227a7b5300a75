-- ===== src/Auth/SignIn/Outcome.antt =====
-- How signing in ends.
use webbuilder.Base.{
  String, Bool, true, false, ◌≡◌, ◌≢◌, refl, ◌⊎◌, inl, inr, some, truthy, Bool-cases,
}
use webbuilder.Base.Exec.{Result, ok, err}
use webbuilder.Auth.Session.{Browser, LoginResponse, save_session}
use webbuilder.Auth.Session.Laws.{
  IsSignedOut, IsSignedIn, save_session_lem, clear_session-IsSignedOut,
}
use webbuilder.Auth.Account.{UserData}
use webbuilder.Auth.SignIn.{
  SignIn, Then, after_save, done, get_current_user, on_login, on_login_user, sign_in_failed,
  with_user,
}

-- The form is free again, with a reason, and nobody is signed in.
pub record IsRefused (s : SignIn) : Type 0 where
  pub not_loading : s.is_loading ≡ false
  pub signed_out : IsSignedOut s.browser

-- A token is stored, and the chat is opened.
pub record IsEntered (s : SignIn) : Type 0 where
  pub not_loading : s.is_loading ≡ false
  pub has_token : truthy s.browser.auth_token ≡ true
  pub route : s.route ≡ some "/chat"

-- After the answer of the login the new session is stored, or the form is free and nobody is
-- signed in.
unfoldable pub IsHandled : (uuid : String) → Result LoginResponse → Then → Type 0
IsHandled uuid answer (done s) = IsRefused s
IsHandled uuid (ok session) (get_current_user s) = IsSignedIn uuid session s.browser
IsHandled uuid (err message) (get_current_user s) = ⊥

sign_in_failed-IsRefused : (message : String) (s : SignIn) → IsRefused (sign_in_failed message s)
unfolding sign_in_failed
sign_in_failed-IsRefused message s = record {
  not_loading = refl;
  signed_out = clear_session-IsSignedOut s.browser;
}

after_save-IsHandled :
    (uuid : String) (session : LoginResponse) (s : SignIn) (r : Result (Unit {0})) (b : Browser)
    → (r ≡ ok tt → IsSignedIn uuid session b) × ((e : String) → r ≡ err e → IsSignedOut b)
    → IsHandled uuid (ok session) (after_save s (r, b))
unfolding after_save IsHandled
after_save-IsHandled uuid session s (ok tt) b (h, k) = h refl
after_save-IsHandled uuid session s (err e) b (h, k) =
    sign_in_failed-IsRefused e (record s { browser = b })

module _ (accepts : String → Bool) (stringify : UserData → String) where
  -- If a session id is given: when the server has answered a login, either its session is stored and nothing of an earlier
  -- one is left, or the form is free again and nobody is signed in.
  pub on_login-IsHandled :
      (uuid : String) (answer : Result LoginResponse) (s : SignIn)
      → uuid ≢ ""
      → IsHandled uuid answer (on_login accepts stringify uuid answer s)
  unfolding on_login IsHandled
  on_login-IsHandled uuid (err message) s u = sign_in_failed-IsRefused message s
  on_login-IsHandled uuid (ok session) s u =
      let (r, b) = save_session accepts uuid session s.browser in
      after_save-IsHandled uuid session s r b (save_session_lem accepts uuid session s.browser u)

  -- Once the user was asked for, whatever the answer and whatever has become of the storage, the
  -- chat is opened with a token that is stored, or the form is free and nobody is signed in.
  pub on_login_user_ends :
      (answer : Result UserData) (s : SignIn)
      → IsEntered (on_login_user accepts stringify answer s)
        ⊎ IsRefused (on_login_user accepts stringify answer s)
  unfolding on_login_user
  on_login_user_ends answer s =
      elim (Bool-cases (truthy (with_user accepts stringify answer s.browser).auth_token)) [
        | inl t ↦ rw t (inl (record { not_loading = refl; has_token = t; route = refl }))
        | inr t ↦ rw t (inr (sign_in_failed-IsRefused _ _))
      ]
