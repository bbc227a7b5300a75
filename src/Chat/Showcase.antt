-- ===== src/Chat/Showcase.antt =====
-- The carousel of the landing page: frontend/components/landing/ProjectShowcase.tsx. Its links open
-- the page of a new project with a starter.
pub mod Starters
mod Tests
use webbuilder.Base.{
  ℕ, zero, suc, ◌+◌, ◌-◌, ◌%◌, String, Bool, true, false, ◌||◌, Option, none, some, List, [], ◌∷◌,
  length, if◌then◌else◌, concat, number_text, ltb, ◌==◌,
}
use webbuilder.Chat.NewProject.{Brief, starter_briefs}

pub record Showcase : Type 0 where
  pub active : ℕ
  pub animate : Bool

abbrev pub initial_showcase : Showcase
initial_showcase = record { active = 0; animate = false }

pub data Direction : Type 0 where
  previous next : Direction

-- `(active + direction + concepts.length) % concepts.length`
abbrev pub moved : Direction → ℕ → ℕ
moved previous active = (active + 3 - 1) % 3
moved next active = (active + 1 + 3) % 3

unfoldable pub move : Direction → (animate : Bool) → Showcase → Showcase
move direction animate s = record { active = moved direction s.active; animate = animate }

unfoldable pub on_key_down : (on_carousel : Bool) → (key : String) → Showcase → Showcase
on_key_down on_carousel key s =
    if on_carousel
    then if key == "ArrowLeft" || key == "ArrowRight"
      then move (if key == "ArrowLeft" then previous else next) false s
      else s
    else s

pub data Event : Type 0 where
  arrow_clicked : Direction → (detail : ℕ) → Event
  key_pressed : (on_carousel : Bool) → (key : String) → Event

unfoldable pub step : Event → Showcase → Showcase
step (arrow_clicked direction detail) s = move direction (ltb 0 detail) s
step (key_pressed on_carousel key) s = on_key_down on_carousel key s

unfoldable pub run : List Event → Showcase → Showcase
run [] s = s
run (event ∷ events) s = run events (step event s)

-- `concepts[active].brief`, `none` out of range; the concepts are in the order of the briefs
abbrev pub brief_at : ℕ → List Brief → Option Brief
brief_at n [] = none
brief_at zero (brief ∷ briefs) = some brief
brief_at (suc n) (brief ∷ briefs) = brief_at n briefs

unfoldable pub brief : Showcase → Option Brief
brief s = brief_at s.active starter_briefs

-- the starter that the link `/chat?starter=…` names
abbrev pub linked_starter : Brief → String
linked_starter b = b.id

-- `String(active + 1).padStart(2, "0")` with the total and the title
unfoldable pub position_text : Showcase → Brief → String
position_text s b =
    let text = number_text (s.active + 1) in
    concat (if ltb s.active 9 then concat "0" text else text) (concat " / 03 " b.title)
