-- ===== src/Auth/SignUp/Page/Tests.antt =====
-- A form that is sent too early, then once.
use webbuilder.Base.{
  String, Bool, true, false, ◌≡◌, ◌⊎◌, refl, Option, none, some, List, [], ◌∷◌, length,
}
use webbuilder.Base.Exec.{ok}
use webbuilder.Auth.SignUp.Page.{
  Registration, Page, Event, typed_name, typed_email, typed_password, submitted, registered,
  options_loaded, step, run, google, provider_url,
}
use webbuilder.Auth.SignUp.Page.Sent.{IsSent, step-sent}

abbrev empty_page : Page
empty_page = record {
  form = record { is_loading = false; error = ""; registered = false };
  fields = record { name = ""; email = ""; password = "" };
  options = none;
  social = record { options = none; failed = false; disposed = false };
  sent = [];
}

abbrev any_email : String → Bool
any_email s = true

abbrev filling : List Event
filling =
    typed_name "Ada"
    ∷ typed_email "a@b.c"
    ∷ typed_password "12345678"
    ∷ submitted
    ∷ options_loaded (
        ok (record {
          providers = record { google = true; github = false };
          email_verification = true;
        }))
    ∷ []

too_early : (run any_email filling empty_page).sent ≡ []
unfolding run step webbuilder.Auth.SignUp.Page.submit webbuilder.Auth.SignUp.Page.can_submit
    webbuilder.Auth.SignUp.Page.submit_disabled
too_early = refl

sent_once :
    length
      (run any_email
        (submitted ∷ submitted ∷ registered (ok tt) ∷ submitted ∷ [])
        (run any_email filling empty_page)).sent
    ≡ 1
unfolding run step webbuilder.Auth.SignUp.Page.submit webbuilder.Auth.SignUp.Page.can_submit
    webbuilder.Auth.SignUp.on_registered webbuilder.Auth.SignUp.Page.submit_disabled
    webbuilder.Auth.SignUp.Page.is_valid webbuilder.Base.utf16_length webbuilder.Base.slice
    webbuilder.Auth.SignUp.handle_submit
sent_once = refl

google_url :
    provider_url "/api" google (run any_email filling empty_page).social
    ≡ some "/api/auth/oauth/google"
unfolding provider_url run step webbuilder.Auth.SignUp.on_options webbuilder.Auth.SignUp.Page.submit
    webbuilder.Auth.SignUp.Page.can_submit webbuilder.Auth.SignUp.Page.submit_disabled
google_url = refl

step-sent_example :
    ((step any_email submitted (run any_email filling empty_page)).sent
      ≡ (run any_email filling empty_page).sent)
    ⊎ ((submitted ≡ submitted)
        × IsSent any_email
            (run any_email filling empty_page)
            (step any_email submitted (run any_email filling empty_page)))
step-sent_example = step-sent any_email submitted (run any_email filling empty_page)
