-- ===== src/Auth/SignIn.antt =====
-- `useSignIn` of frontend/hooks/auth/useSignIn.ts. Its two async functions are cut at their awaits;
-- what a request answers is a result, and while it runs the browser may change. `stringify` is
-- `JSON.stringify` on a user; what `localStorage` accepts is `accepts`.
pub mod Outcome
mod Tests
use webbuilder.Base.{
  String, Bool, true, false, not, ◌&&◌, ◌||◌, Option, none, some, if◌then◌else◌, truthy, same_text,
}
use webbuilder.Base.Exec.{Result, ok, err}
use webbuilder.Auth.Session.{Browser, LoginResponse, get_session_id, save_session, clear_session}
use webbuilder.Auth.Account.{UserData, set_user_data}

pub record SignIn : Type 0 where
  pub is_loading : Bool
  pub error : String
  pub checking_session : Bool
  pub disposed : Bool
  -- the route that `router.replace` was last given
  pub route : Option String
  pub browser : Browser

-- `checkSession`, up to its await: the session that it asks for, if there is one
unfoldable pub check_session : SignIn → SignIn × Bool
check_session s =
    if truthy s.browser.auth_token
    then (s, true)
    else (record s { checking_session = false }, false)

module _ (accepts : String → Bool) (stringify : UserData → String) where
  -- Caching profile data is optional after validating the session.
  unfoldable pub cache_user : UserData → Browser → Browser
  cache_user user b = (set_user_data accepts (stringify user) b).1

  -- what follows the await; `session_id` was read before it
  unfoldable pub on_session_user : Option String → Result UserData → SignIn → SignIn
  on_session_user session_id (err message) s =
      if s.disposed then s else record s { checking_session = false }
  on_session_user session_id (ok user) s =
      if s.disposed
      then s
      else if same_text (get_session_id s.browser) session_id
      then record s { browser = cache_user user s.browser; route = some "/chat" }
      else record s { checking_session = false }

-- `handleSubmit`, up to `await authService.login`
unfoldable pub handle_submit : SignIn → SignIn
handle_submit s = record s { error = ""; is_loading = true }

-- the `catch` block, which clears any partial data
unfoldable pub sign_in_failed : String → SignIn → SignIn
sign_in_failed message s = record s {
  error = message;
  is_loading = false;
  browser = clear_session s.browser;
}

-- what is awaited next, if anything
pub data Then : Type 0 where
  done : SignIn → Then
  get_current_user : SignIn → Then

unfoldable pub after_save : SignIn → Result (Unit {0}) × Browser → Then
after_save s (ok _, b) = get_current_user (record s { browser = b })
after_save s (err message, b) = done (sign_in_failed message (record s { browser = b }))

module _ (accepts : String → Bool) (stringify : UserData → String) where
  unfoldable pub on_login : (uuid : String) → Result LoginResponse → SignIn → Then
  on_login uuid (err message) s = done (sign_in_failed message s)
  on_login uuid (ok session) s = after_save s (save_session accepts uuid session s.browser)

  abbrev pub with_user : Result UserData → Browser → Browser
  with_user (ok user) b = cache_user accepts stringify user b
  with_user (err message) b = b

  -- what follows the second await: the token was stored if it is still there
  unfoldable pub on_login_user : Result UserData → SignIn → SignIn
  on_login_user answer s =
      let b = with_user answer s.browser in
      if truthy b.auth_token
      then record s { browser = b; is_loading = false; route = some "/chat" }
      else sign_in_failed "Failed to store authentication token" (record s { browser = b })
