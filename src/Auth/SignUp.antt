-- ===== src/Auth/SignUp.antt =====
-- `useSignUp` of frontend/hooks/auth/useSignUp.ts and `useSocialLogin` of
-- frontend/hooks/auth/useSocialLogin.ts, cut at their awaits.
pub mod Page
use webbuilder.Base.{String, Bool, true, false, not, ◌&&◌, Option, none, some, if◌then◌else◌}
use webbuilder.Base.Exec.{Result, ok, err}
use webbuilder.Auth.Account.{AuthOptions}
use webbuilder.Projects.Filters.{includes}

pub record SignUp : Type 0 where
  pub is_loading : Bool
  pub error : String
  pub registered : Bool

unfoldable pub handle_submit : SignUp → SignUp
handle_submit s = record s { error = ""; is_loading = true }

-- what follows `await authService.register`
unfoldable pub on_registered : Result (Unit {0}) → SignUp → SignUp
on_registered (ok _) s = record s { registered = true; is_loading = false }
on_registered (err message) s = record s {
  error =
      if includes message "Email already registered"
      then "This email is already registered. Please sign in instead."
      else message;
  is_loading = false;
}

pub record SocialLogin : Type 0 where
  pub options : Option AuthOptions
  pub failed : Bool
  pub disposed : Bool

unfoldable pub on_options : Result AuthOptions → SocialLogin → SocialLogin
on_options (ok options) s = if s.disposed then s else record s { options = some options }
on_options (err message) s = if s.disposed then s else record s { failed = true }

unfoldable pub options_message : (registration : Bool) → Option AuthOptions → String
options_message registration none = "Loading sign-in options…"
options_message registration (some options) =
    if not options.providers.google && not options.providers.github
    then if registration && not options.email_verification
      then "New accounts are awaiting setup. Existing members can sign in."
      else "Social sign-in is awaiting setup. You can use email below."
    else "Or continue with your email."

unfoldable pub helper_message : (registration : Bool) → SocialLogin → String
helper_message registration s =
    if s.failed
    then "Social sign-in is temporarily unavailable."
    else options_message registration s.options
