-- ===== src/Auth/Identity/Submitted.antt =====
-- What the card sends.
use webbuilder.Base.{
  String, Bool, true, false, not, ◌||◌, ◌≡◌, refl, ◌∙◌, sym, subst, Option, none, some, List, [],
  ◌∷◌, ◌++◌, All, if_keeps, is_empty, trim, Bool-cases, inl, inr, is_empty-trim-trim,
}
use webbuilder.Base.Exec.{Result, ok, err}
use webbuilder.Auth.Account.{UserData, set_user_data}
use webbuilder.Auth.Profile.{Profile, save, on_saved, after_save, save_failed}
use webbuilder.Auth.Identity.{
  Card, Page, dirty, submit, close, edit, after_answer, Event, edit_clicked, typed_name, typed_bio,
  submitted, answered, escape_pressed, cancel_clicked, focused, step, run, unless_busy, for_user,
  type_name, type_bio,
}

-- no name that was sent is blank
abbrev pub AreNamed : List (String × String) → Type 0
AreNamed saves = All (λ (change : String × String). is_empty change.0 ≡ false) saves

AreNamed-append :
    (saves : List (String × String)) (change : String × String)
    → AreNamed saves
    → is_empty change.0 ≡ false
    → AreNamed (saves ++ change ∷ [])
AreNamed-append [] change h k = (k, tt)
AreNamed-append (first ∷ saves) change (f, h) k = (f, AreNamed-append saves change h k)

or_true : (b : Bool) → (b || true) ≡ true
or_true true = refl
or_true false = refl

submit-AreNamed :
    (user : UserData) (page : Page)
    → AreNamed page.profile.saves
    → AreNamed (submit user page).profile.saves
unfolding submit save
submit-AreNamed user page h = elim (Bool-cases (is_empty (trim page.card.name))) [
  | inl b ↦ rw (b, or_true) h
  | inr n ↦
      if_keeps (λ (q : Page). AreNamed q.profile.saves)
        (page.profile.busy || not (dirty user page.card) || is_empty (trim page.card.name)) h
        (if_keeps (λ (p : Profile). AreNamed p.saves) page.profile.busy h
          (AreNamed-append page.profile.saves _ h (is_empty-trim-trim page.card.name ∙ n)))
]

for_user-AreNamed :
    (f : UserData → Page → Page) (user : Option UserData) (page : Page)
    → AreNamed page.profile.saves
    → ((u : UserData) → AreNamed (f u page).profile.saves)
    → AreNamed (for_user f user page).profile.saves
for_user-AreNamed f none page h k = h
for_user-AreNamed f (some user) page h k = k user

module _ (accepts : String → Bool) (stringify : UserData → String) where
  answered-AreNamed :
      (c : Card) (answer : Result UserData) (p : Profile)
      → AreNamed p.saves
      → AreNamed (after_answer c (on_saved accepts stringify answer p)).profile.saves
  unfolding on_saved after_save save_failed set_user_data
  answered-AreNamed c (err message) p h = h
  answered-AreNamed c (ok user) p h = elim (Bool-cases (accepts (stringify user))) [
    | inl t ↦ rw t h
    | inr f ↦ rw f h
  ]

  unless_busy-AreNamed :
      (f : Card → Card) (page : Page)
      → AreNamed page.profile.saves
      → AreNamed (unless_busy f page).profile.saves
  unless_busy-AreNamed f page h =
      if_keeps (λ (q : Page). AreNamed q.profile.saves) page.profile.busy h h

  step-AreNamed :
      (event : Event) (page : Page)
      → AreNamed page.profile.saves
      → AreNamed (step accepts stringify event page).profile.saves
  unfolding step
  step-AreNamed edit_clicked page h =
      for_user-AreNamed (λ user. unless_busy (edit user)) page.profile.user page h
        (λ user. unless_busy-AreNamed (edit user) page h)
  step-AreNamed (typed_name text) page h = unless_busy-AreNamed (type_name text) page h
  step-AreNamed (typed_bio text) page h = unless_busy-AreNamed (type_bio text) page h
  step-AreNamed submitted page h =
      for_user-AreNamed submit page.profile.user page h (λ user. submit-AreNamed user page h)
  step-AreNamed (answered answer) page h = answered-AreNamed page.card answer page.profile h
  step-AreNamed escape_pressed page h = unless_busy-AreNamed close page h
  step-AreNamed cancel_clicked page h = unless_busy-AreNamed close page h
  step-AreNamed focused page h = h

  run-keeps :
      (events : List Event) (page : Page)
      → AreNamed page.profile.saves
      → AreNamed (run accepts stringify events page).profile.saves
  unfolding run
  run-keeps [] page h = h
  run-keeps (event ∷ events) page h =
      run-keeps events (step accepts stringify event page) (step-AreNamed event page h)

-- Whatever is typed, sent, answered and closed in the card of a profile for which nothing has been
-- sent yet, no change with a blank name is sent.
pub run-AreNamed :
    (accepts : String → Bool) (stringify : UserData → String) (events : List Event) (page : Page)
    → page.profile.saves ≡ []
    → AreNamed (run accepts stringify events page).profile.saves
run-AreNamed accepts stringify events page h =
    run-keeps accepts stringify events page (subst AreNamed (sym h) tt)
