-- ===== src/Auth/SignUp/Page.antt =====
-- The page of frontend/components/auth/SignUpPage.tsx over `useSignUp`, with the buttons of
-- frontend/components/auth/SocialLogin.tsx over `useSocialLogin`. `is_email` is the browser's check of
-- an `<input type="email">`; a form whose fields it refuses is not submitted.
pub mod Sent
mod Tests
use webbuilder.Base.{
  ℕ, String, Bool, true, false, not, ◌&&◌, ◌||◌, ◌≡◌, refl, ◌⊎◌, inl, inr, Option, none, some, List,
  [], ◌∷◌, ◌++◌, if◌then◌else◌, is_empty, leb, utf16_length, slice, concat, Bool-cases,
}
use webbuilder.Base.Exec.{Result, ok, err}
use webbuilder.Auth.Account.{Providers, AuthOptions}
use webbuilder.Auth.SignUp.{SignUp, handle_submit, on_registered, SocialLogin, on_options}

pub record Registration : Type 0 where
  pub name : String
  pub email : String
  pub password : String

pub record Page : Type 0 where
  pub form : SignUp
  pub fields : Registration
  pub options : Option AuthOptions
  pub social : SocialLogin
  -- what was posted
  pub sent : List Registration

abbrev pub verifies : Option AuthOptions → Bool
verifies none = false
verifies (some options) = options.email_verification

unfoldable pub submit_disabled : Page → Bool
submit_disabled p = p.form.is_loading || not (verifies p.options)

-- `onOptions` is `setOptions`
abbrev pub given_options : Result AuthOptions → Page → Option AuthOptions
given_options (ok options) p = if p.social.disposed then p.options else some options
given_options (err message) p = p.options

pub data Provider : Type 0 where
  google github : Provider

abbrev pub offers : Provider → Option AuthOptions → Bool
offers provider none = false
offers google (some options) = options.providers.google
offers github (some options) = options.providers.github

abbrev pub provider_id : Provider → String
provider_id google = "google"
provider_id github = "github"

-- the address that the button of a provider opens, relative to the page, if it is not disabled
unfoldable pub provider_url : (api_base_url : String) → Provider → SocialLogin → Option String
provider_url api_base_url provider s =
    if offers provider s.options
    then some (concat api_base_url (concat "/auth/oauth/" (provider_id provider)))
    else none

pub data Event : Type 0 where
  typed_name typed_email typed_password : String → Event
  submitted : Event
  registered : Result (Unit {0}) → Event
  options_loaded : Result AuthOptions → Event

abbrev pub type_in : (Registration → Registration) → Page → Page
type_in f p = if p.form.is_loading then p else record p { fields = f p.fields }

module _ (is_email : String → Bool) where
  -- the constraints of the three fields
  unfoldable pub is_valid : Registration → Bool
  is_valid r =
      not (is_empty r.name)
      && (not (is_empty r.email) && is_email r.email)
      && leb 8 (utf16_length r.password)

  -- the form is there until the account is registered
  unfoldable pub can_submit : Page → Bool
  can_submit p = not p.form.registered && not (submit_disabled p) && is_valid p.fields

  unfoldable pub submit : Page → Page
  submit p =
      if can_submit p
      then record p { form = handle_submit p.form; sent = p.sent ++ p.fields ∷ [] }
      else p

  unfoldable pub step : Event → Page → Page
  step (typed_name text) p = type_in (λ (r : Registration). record r { name = text }) p
  step (typed_email text) p = type_in (λ (r : Registration). record r { email = text }) p
  step (typed_password text) p =
      type_in (λ (r : Registration). record r { password = slice 256 text }) p
  step submitted p = submit p
  step (registered answer) p = record p { form = on_registered answer p.form }
  step (options_loaded answer) p = record p {
    social = on_options answer p.social;
    options = given_options answer p;
  }

  unfoldable pub run : List Event → Page → Page
  run [] p = p
  run (event ∷ events) p = run events (step event p)
