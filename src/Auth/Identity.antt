-- ===== src/Auth/Identity.antt =====
-- The card of a profile: frontend/components/profile/ProfileIdentityCard.tsx, over `useProfile`,
-- whose user and `busy` it is given and whose `save` is its `onSave`. `upper` is
-- `toLocaleUpperCase`.
pub mod Submitted
mod Tests
use Prim.Native.Char.{Char}
use Prim.Native.String
use webbuilder.Base.{
  String, Bool, true, false, not, ◌&&◌, ◌||◌, Option, none, some, List, [], ◌∷◌, map, filter, take,
  if◌then◌else◌, or_else, truthy, is_empty, is_space, split_on, slice, trim, join, ◌==◌,
}
use webbuilder.Base.Exec.{Result}
use webbuilder.Auth.Account.{UserData}
use webbuilder.Auth.Profile.{Profile, save, on_saved}

pub record Card : Type 0 where
  pub editing : Bool
  pub name : String
  pub bio : String
  pub restore_focus : Bool

pub record Page : Type 0 where
  pub card : Card
  pub profile : Profile

-- `user.bio || ""`
abbrev pub bio_of : UserData → String
bio_of user = or_else user.bio ""

unfoldable pub dirty : UserData → Card → Bool
dirty user c = not (trim c.name == user.name) || not (trim c.bio == bio_of user)

unfoldable pub edit : UserData → Card → Card
edit user c = record c { name = user.name; bio = bio_of user; editing = true }

unfoldable pub close : Card → Card
close c = record c { restore_focus = true; editing = false }

-- the button that is shown once the card is closed takes the focus
unfoldable pub take_focus : Card → Card
take_focus c = if c.restore_focus then record c { restore_focus = false } else c

-- `save`, up to the answer of `onSave`
unfoldable pub submit : UserData → Page → Page
submit user page =
    if page.profile.busy || not (dirty user page.card) || is_empty (trim page.card.name)
    then page
    else record page { profile = save (trim page.card.name) (trim page.card.bio) page.profile }

abbrev pub after_answer : Card → Bool × Profile → Page
after_answer c (success, p) = record { card = if success then close c else c; profile = p }

unfoldable pub submit_disabled : UserData → Page → Bool
submit_disabled user page =
    page.profile.busy || not (dirty user page.card) || is_empty (trim page.card.name)

abbrev pub first_letter : String → String
first_letter String.[] = ""
first_letter (String.◌∷◌ c s) = String.◌∷◌ c String.[]

-- the letters of the first two words
unfoldable pub initials : (upper : String → String) → UserData → String
initials upper user =
    let words = filter (λ word. not (is_empty word)) (split_on is_space (trim user.name)) in
    upper (join "" (map first_letter (take 2 words)))

abbrev pub bio_text : UserData → String
bio_text user =
    if truthy user.bio then bio_of user else "Add a short bio to tell a little of your story."

abbrev pub verified_text : UserData → String
verified_text user = if or_else user.email_verified false then "Verified" else "Not verified"

pub data Event : Type 0 where
  edit_clicked : Event
  typed_name typed_bio : String → Event
  submitted : Event
  answered : Result UserData → Event
  escape_pressed cancel_clicked : Event
  focused : Event

-- the fields, which stop at their `maxLength`
abbrev pub type_name : String → Card → Card
type_name text c = record c { name = slice 100 text }

abbrev pub type_bio : String → Card → Card
type_bio text c = record c { bio = slice 280 text }

-- The card is there when the profile has a user; while it is busy its controls are disabled.
abbrev pub on_card : (Card → Card) → Page → Page
on_card f page = record page { card = f page.card }

abbrev pub unless_busy : (Card → Card) → Page → Page
unless_busy f page = if page.profile.busy then page else on_card f page

abbrev pub for_user : (UserData → Page → Page) → Option UserData → Page → Page
for_user f none page = page
for_user f (some user) page = f user page

module _ (accepts : String → Bool) (stringify : UserData → String) where
  unfoldable pub step : Event → Page → Page
  step edit_clicked page = for_user (λ user. unless_busy (edit user)) page.profile.user page
  step (typed_name text) page = unless_busy (type_name text) page
  step (typed_bio text) page = unless_busy (type_bio text) page
  step submitted page = for_user submit page.profile.user page
  step (answered answer) page =
      after_answer page.card (on_saved accepts stringify answer page.profile)
  step escape_pressed page = unless_busy close page
  step cancel_clicked page = unless_busy close page
  step focused page = on_card take_focus page

  unfoldable pub run : List Event → Page → Page
  run [] page = page
  run (event ∷ events) page = run events (step event page)
