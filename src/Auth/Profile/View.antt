-- ===== src/Auth/Profile/View.antt =====
-- What frontend/components/profile/ProfilePage.tsx shows of a profile. The reset of the credits is that of
-- Auth/CreditReset, the card that of Auth/Identity.
pub mod Retried
mod Tests
use webbuilder.Base.{
  ℕ, String, Bool, true, false, not, ◌||◌, Option, none, some, List, [], ◌∷◌, ◌++◌, contains,
  if◌then◌else◌, or_else, truthy, is_empty, number_text,
}
use webbuilder.Auth.Account.{UserData, AuthOptions}
use webbuilder.Auth.SignUp.Page.{Provider, google, github, offers, provider_id}
use webbuilder.Auth.Profile.{Profile, connect}

-- a row of the sign-in methods: its label, and the button unless it is connected
pub record Method : Type 0 where
  pub name : String
  pub label : String
  pub connect_disabled : Option Bool

abbrev pub provider_name : Provider → String
provider_name google = "Google"
provider_name github = "GitHub"

abbrev pub is_connected : Provider → UserData → Bool
is_connected provider user = contains (or_else user.providers []) (provider_id provider)

unfoldable pub method : Provider → UserData → Profile → Method
method provider user p =
    let offered = offers provider p.options in
    if is_connected provider user
    then record { name = provider_name provider; label = "Connected"; connect_disabled = none }
    else record {
      name = provider_name provider;
      label = if offered then "Not connected" else "Awaiting setup";
      connect_disabled = some (p.busy || not offered);
    }

abbrev pub unlimited : UserData → Bool
unlimited user = or_else user.credits_unlimited false

unfoldable pub credits_text : UserData → String
credits_text user = if unlimited user then "Unlimited" else number_text user.tokens_remaining

abbrev pub credits_note : UserData → String
credits_note user =
    if unlimited user
    then "No daily credit limit applies to this account."
    else "Credits available for your next build."

pub data Reset : Type 0 where
  hidden next_build : Reset
  countdown : (reset_at : String) → Reset

unfoldable pub reset : UserData → Reset
reset user =
    if unlimited user
    then hidden
    else if truthy user.tokens_reset_at
    then countdown (or_else user.tokens_reset_at "")
    else next_build

pub data Body : Type 0 where
  try_again skeleton : Body
  content : UserData → List Method → Body

unfoldable pub body : Profile → Body
body p = elim (p.user) [
  | some user ↦ content user (method google user p ∷ method github user p ∷ [])
  | none ↦ if is_empty p.error then skeleton else try_again
]

-- a click on the button of a row, where there is one
abbrev pub press_connect : Method → Profile → Profile
press_connect m p = elim (m.connect_disabled) [
  | none ↦ p
  | some disabled ↦ if disabled then p else connect p
]
