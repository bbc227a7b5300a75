-- ===== src/Chat/Showcase/Starters.antt =====
-- The concept in front, and the page that its link opens.
use webbuilder.Base.{
  ℕ, zero, suc, ◌<◌, String, Bool, true, false, ◌&&◌, ◌||◌, ◌≡◌, refl, Option, none, some, List, [],
  ◌∷◌, if_keeps, truthy, ◌==◌, arith,
}
use webbuilder.Base.Exec.{ok}
use webbuilder.Auth.Account.{UserData, set_user_data}
use webbuilder.Chat.NewProject.{
  NewProject, Brief, starter_briefs, find_brief, set_up, read_draft, on_user,
}
use webbuilder.Chat.Showcase.{
  Showcase, initial_showcase, Direction, previous, next, move, on_key_down, Event, arrow_clicked,
  key_pressed, step, run, brief_at, brief, linked_starter,
}

abbrev IsInRange : Showcase → Type 0
IsInRange s = s.active < 3

move-IsInRange :
    (direction : Direction) (animate : Bool) (s : Showcase) → IsInRange (move direction animate s)
unfolding move
move-IsInRange previous animate s = omega arith
move-IsInRange next animate s = omega arith

step-IsInRange : (event : Event) (s : Showcase) → IsInRange s → IsInRange (step event s)
unfolding step on_key_down
step-IsInRange (arrow_clicked direction detail) s h = move-IsInRange direction _ s
step-IsInRange (key_pressed on_carousel key) s h =
    if_keeps IsInRange on_carousel
      (if_keeps IsInRange (key == "ArrowLeft" || key == "ArrowRight") (move-IsInRange _ false s) h)
      h

run-IsInRange : (events : List Event) (s : Showcase) → IsInRange s → IsInRange (run events s)
unfolding run
run-IsInRange [] s h = h
run-IsInRange (event ∷ events) s h = run-IsInRange events (step event s) (step-IsInRange event s h)

-- a brief that the address of the page can name
record IsStarter (found : Option Brief) : Type 0 where
  starter : Brief
  is_found : found ≡ some starter
  is_known : find_brief (some starter.id) ≡ some starter
  is_named : truthy (some starter.id) ≡ true

brief_at-IsStarter : (n : ℕ) → n < 3 → IsStarter (brief_at n starter_briefs)
unfolding find_brief
brief_at-IsStarter zero h = record {
  starter = _;
  is_found = refl;
  is_known = refl;
  is_named = refl;
}
brief_at-IsStarter (suc zero) h = record {
  starter = _;
  is_found = refl;
  is_known = refl;
  is_named = refl;
}
brief_at-IsStarter (suc (suc zero)) h = record {
  starter = _;
  is_found = refl;
  is_known = refl;
  is_named = refl;
}
brief_at-IsStarter (suc (suc (suc n))) h = absurd (omega (arith, h))

and_false : (b : Bool) → (b && false) ≡ false
and_false true = refl
and_false false = refl

-- the page that a link opens, once the user has been loaded
abbrev pub open_link :
    (keeps accepts : String → Bool) (stringify : UserData → String)
    → Brief
    → UserData
    → NewProject
    → NewProject
open_link keeps accepts stringify b user p =
    on_user accepts stringify false (ok user) (set_up keeps true (some (linked_starter b)) p)

input-open_link :
    (keeps accepts : String → Bool) (stringify : UserData → String) (b : Brief) (user : UserData)
    (p : NewProject)
    → find_brief (some b.id) ≡ some b
    → truthy (some b.id) ≡ true
    → p.input ≡ ""
    → p.initial_draft ≡ none
    → truthy p.browser.auth_token ≡ true
    → accepts (stringify user) ≡ true
    → (open_link keeps accepts stringify b user p).input ≡ b.prompt
unfolding set_up read_draft on_user set_user_data
input-open_link keeps accepts stringify b user p f n i d t a = rw (d, n, f, and_false, t, a, i) refl

-- There is a concept in front, and its link fills the page with its prompt.
pub record IsLinked (opened : Brief → String) (front : Option Brief) : Type 0 where
  pub starter : Brief
  pub is_front : front ≡ some starter
  pub filled : opened starter ≡ starter.prompt

-- However the concepts have been browsed, there is one in front. Its link, opened by somebody who
-- is signed in, in a page that is new, whose storages work and take the user, fills the input with
-- the prompt of that concept, whatever draft or starter is stored.
pub run-IsLinked :
    (keeps accepts : String → Bool) (stringify : UserData → String) (events : List Event)
    (user : UserData) (p : NewProject)
    → p.input ≡ ""
    → p.initial_draft ≡ none
    → truthy p.browser.auth_token ≡ true
    → accepts (stringify user) ≡ true
    → IsLinked
        (λ b. (open_link keeps accepts stringify b user p).input)
        (brief (run events initial_showcase))
unfolding brief
run-IsLinked keeps accepts stringify events user p i d t a =
    let range = run-IsInRange events initial_showcase (omega arith) in
    let known = brief_at-IsStarter (run events initial_showcase).active range in
    record {
      starter = known.starter;
      is_front = known.is_found;
      filled =
          input-open_link keeps accepts stringify known.starter user p known.is_known known.is_named
            i d t a;
    }
