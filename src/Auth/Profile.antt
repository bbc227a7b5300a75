-- ===== src/Auth/Profile.antt =====
-- `useProfile` of frontend/hooks/profile/useProfile.ts, cut at its awaits. A change that is asked of
-- the server goes into `saves`, a toast into `notices`. `provider_in` reads the parameter
-- `connected` of a URL fragment, as `URLSearchParams` does.
pub mod Saves
pub mod View
mod Tests
use webbuilder.Base.{
  ℕ, ◌+◌, String, Bool, true, false, not, ◌&&◌, Option, none, some, List, [], ◌∷◌, ◌++◌, any,
  if◌then◌else◌, or_else, truthy, is_empty, trim, eqb, ◌==◌,
}
use webbuilder.Base.Exec.{Result, ok, err}
use webbuilder.Auth.Session.{Browser, clear_session}
use webbuilder.Auth.Account.{UserData, AuthOptions, set_user_data}

pub record Profile : Type 0 where
  pub user : Option UserData
  pub options : Option AuthOptions
  pub busy : Bool
  pub error : String
  pub message : String
  pub attempt : ℕ
  pub hash : String
  pub browser : Browser
  pub route : Option String
  pub saves : List (String × String)
  pub notices : List String

-- the effect of an attempt, up to its requests
unfoldable pub load : Profile → Profile
load p =
    if truthy p.browser.auth_token
    then record p { error = "" }
    else record p { route = some "/signin" }

abbrev pub load_failed : Profile → Profile
load_failed p = record p { error = "Could not load your profile. Please try again." }

unfoldable pub is_connected : UserData → Option String → Bool
is_connected user connected =
    truthy connected && any (λ p. p == or_else connected "") (or_else user.providers [])

unfoldable pub after_load :
    (provider_in : String → Option String)
    → UserData
    → Result (Unit {0}) × Browser
    → Profile
    → Profile
after_load provider_in user (err message, b) p =
    load_failed (record p { user = some user; browser = b })
after_load provider_in user (ok _, b) p = record p {
  user = some user;
  browser = b;
  message =
      if is_connected user (provider_in p.hash) then "Sign-in method connected." else p.message;
  hash = "";
}

unfoldable pub on_options : (attempt : ℕ) → Result AuthOptions → Profile → Profile
on_options attempt (ok options) p =
    if eqb attempt p.attempt then record p { options = some options } else p
on_options attempt (err message) p = p

unfoldable pub after_credits : UserData → Result (Unit {0}) × Browser → Profile → Profile
after_credits user (ok _, b) p = record p { user = some user; browser = b }
after_credits user (err message, b) p = record p {
  user = some user;
  browser = b;
  error = "Could not refresh your credits. Reload to see the latest balance.";
}

unfoldable pub sign_out : Profile → Profile
sign_out p = record p { browser = clear_session p.browser; route = some "/signin" }

-- `save`, up to its await; a call that is refused has returned false
unfoldable pub save : (name bio : String) → Profile → Profile
save name bio p = if p.busy then p else record p {
  busy = true;
  error = "";
  message = "";
  saves = p.saves ++ (trim name, trim bio) ∷ [];
}

-- the rest of `save`, with what it returns
unfoldable pub save_failed : String → Profile → Bool × Profile
save_failed message p = (false, record p { error = message; busy = false })

unfoldable pub after_save : UserData → Result (Unit {0}) × Browser → Profile → Bool × Profile
after_save user (ok _, b) p = (
  true,
  record p {
    user = some user;
    browser = b;
    busy = false;
    notices = p.notices ++ "Your changes are saved." ∷ [];
  },
)
after_save user (err message, b) p =
    save_failed message (record p { user = some user; browser = b })

-- `connect`, up to its await, and what follows; the answer is the provider's page
unfoldable pub connect : Profile → Profile
connect p = record p { busy = true; error = ""; message = "" }

unfoldable pub on_link : Result String → Profile → Profile
on_link (ok url) p = record p { route = some url }
on_link (err message) p = record p {
  error = "Could not connect this sign-in method. Please try again.";
  busy = false;
}

module _ (accepts : String → Bool) (stringify : UserData → String) where
  unfoldable pub on_loaded :
      (provider_in : String → Option String) → (attempt : ℕ) → Result UserData → Profile → Profile
  on_loaded provider_in attempt (err message) p = if eqb attempt p.attempt then load_failed p else p
  on_loaded provider_in attempt (ok user) p =
      if eqb attempt p.attempt
      then after_load provider_in user (set_user_data accepts (stringify user) p.browser) p
      else p

  -- the answer to `refreshCredits`
  unfoldable pub on_credits : Result UserData → Profile → Profile
  on_credits (ok user) p = after_credits user (set_user_data accepts (stringify user) p.browser) p
  on_credits (err message) p = record p {
    error = "Could not refresh your credits. Reload to see the latest balance.";
  }

  unfoldable pub on_saved : Result UserData → Profile → Bool × Profile
  on_saved (ok user) p = after_save user (set_user_data accepts (stringify user) p.browser) p
  on_saved (err message) p = save_failed message p

pub data Event : Type 0 where
  attempted : Event
  loaded : (attempt : ℕ) → Result UserData → Event
  options_loaded : (attempt : ℕ) → Result AuthOptions → Event
  credits_loaded : Result UserData → Event
  signed_out : Event
  saving : (name bio : String) → Event
  saved : Result UserData → Event
  connecting : Event
  linked : Result String → Event

module _ (provider_in : String → Option String) (accepts : String → Bool)
    (stringify : UserData → String) where
  unfoldable pub step : Event → Profile → Profile
  step attempted p = load (record p { attempt = p.attempt + 1 })
  step (loaded attempt answer) p = on_loaded accepts stringify provider_in attempt answer p
  step (options_loaded attempt answer) p = on_options attempt answer p
  step (credits_loaded answer) p = on_credits accepts stringify answer p
  step signed_out p = sign_out p
  step (saving name bio) p = save name bio p
  step (saved answer) p = (on_saved accepts stringify answer p).1
  step connecting p = connect p
  step (linked answer) p = on_link answer p

  unfoldable pub run : List Event → Profile → Profile
  run [] p = p
  run (event ∷ events) p = run events (step event p)
