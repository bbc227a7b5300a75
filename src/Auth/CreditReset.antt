-- ===== src/Auth/CreditReset.antt =====
-- The countdown of frontend/components/profile/CreditReset.tsx, for one effect: the interval fires
-- until it is cleared, and `visibilitychange` comes at any time. Times are in milliseconds.
pub mod Countdown
mod Tests
use webbuilder.Base.{
  ℕ, ◌+◌, ◌-◌, ◌*◌, ◌/◌, ◌%◌, String, Bool, true, false, not, ◌&&◌, Option, none, some, List, [],
  ◌∷◌, if◌then◌else◌, or_else, eqb, ltb, concat, number_text,
}

pub record CreditReset : Type 0 where
  -- `Date.parse(resetAt)`, where it is finite
  pub deadline : Option ℕ
  pub remaining : Option ℕ
  pub completed : Bool
  pub ticking : Bool
  -- how often `onReset` was called
  pub resets : ℕ

-- `Math.max(0, Math.ceil((deadline - Date.now()) / 1000))`
abbrev pub seconds_left : (deadline now : ℕ) → ℕ
seconds_left deadline now = (deadline - now + 999) / 1000

unfoldable pub tick : (deadline now : ℕ) → CreditReset → CreditReset
tick deadline now c =
    let q = record c { remaining = some (seconds_left deadline now) } in
    if eqb (seconds_left deadline now) 0 && not c.completed
    then record q { completed = true; ticking = false; resets = c.resets + 1 }
    else q

abbrev pub start : Option ℕ → (now : ℕ) → CreditReset → CreditReset
start none now c = c
start (some deadline) now c = tick deadline now (record c { completed = false; ticking = true })

unfoldable pub set_up : (now : ℕ) → CreditReset → CreditReset
set_up now c = start c.deadline now c

pub data Event : Type 0 where
  fired : (now : ℕ) → Event
  visibility_changed : (now : ℕ) → Event

module _ (deadline : ℕ) where
  unfoldable pub step : Event → CreditReset → CreditReset
  step (fired now) c = if c.ticking then tick deadline now c else c
  step (visibility_changed now) c = tick deadline now c

  unfoldable pub run : List Event → CreditReset → CreditReset
  run [] c = c
  run (event ∷ events) c = run events (step event c)

-- `String(n).padStart(2, "0")`
abbrev pub pad : ℕ → String
pad n = if ltb n 10 then concat "0" (number_text n) else number_text n

abbrev pub hours_of : ℕ → ℕ
hours_of seconds = seconds / 3600

abbrev pub minutes_of : ℕ → ℕ
minutes_of seconds = (seconds / 60) % 60

abbrev pub rest_of : ℕ → ℕ
rest_of seconds = seconds % 60

unfoldable pub remaining_text : Option ℕ → String
remaining_text none = "Loading reset time…"
remaining_text (some seconds) =
    if eqb seconds 0
    then "Reset available"
    else concat "Resets in " (
        concat (pad (hours_of seconds)) (
          concat "h "
            (concat (pad (minutes_of seconds)) (concat "m " (concat (pad (rest_of seconds)) "s")))))
