-- ===== src/Auth/Profile/View/Tests.antt =====
-- A profile that could not be loaded, and its sign-in methods once it is.
use webbuilder.Base.{arith, String, Bool, true, false, ◌≡◌, refl, Option, none, some, List, [], ◌∷◌}
use webbuilder.Base.Exec.{ok, err}
use webbuilder.Auth.Profile.{Profile, attempted, loaded, step}
use webbuilder.Auth.SignUp.Page.{google, github}
use webbuilder.Auth.Profile.View.{method, credits_text, body, try_again, skeleton, press_connect}
use webbuilder.Auth.Profile.View.Retried.{IsShown, body-after_retry}
use webbuilder.Samples.{signed_in, account, takes_none, stringify}

abbrev lost : Profile
lost = record {
  user = none;
  options =
      some (record {
        providers = record { google = true; github = false };
        email_verification = true;
      });
  busy = false;
  error = "Could not load your profile. Please try again.";
  message = "";
  attempt = 0;
  hash = "";
  browser = signed_in;
  route = none;
  saves = [];
  notices = [];
}

abbrev no_provider : String → Option String
no_provider hash = none

button_is_there : body lost ≡ try_again
unfolding body
button_is_there = refl

offered_method :
    method google account lost
    ≡ record { name = "Google"; label = "Not connected"; connect_disabled = some false }
unfolding method
offered_method = refl

missing_method :
    method github account lost
    ≡ record { name = "GitHub"; label = "Awaiting setup"; connect_disabled = some true }
unfolding method
missing_method = refl

disabled_click : press_connect (method github account lost) lost ≡ lost
unfolding method
disabled_click = refl

credits_left : credits_text account ≡ "5"
unfolding credits_text webbuilder.Base.number_text
credits_left = refl

body-after_retry_example :
    let react = step no_provider takes_none stringify in
    let q = react attempted lost in
    (q.attempt ≡ 1)
    × (body q ≡ skeleton)
    × (react (loaded 0 (err "late")) q ≡ q)
    × IsShown (ok account) (body (react (loaded 1 (ok account)) q))
body-after_retry_example =
    body-after_retry no_provider takes_none stringify lost 0 (err "late") (ok account) refl refl
      (omega arith)
