-- ===== src/Chat/ToolList.antt =====
-- The rows of tool calls in a run: frontend/components/chat/ToolList.tsx. `to_fixed` is
-- `(n / 1000).toFixed(1)`.
pub mod Folded
pub mod Choice
mod Tests
use webbuilder.Base.{
  ℕ, ◌-◌, min, String, Bool, true, false, not, Option, none, some, List, find_index, length, take,
  drop, if◌then◌else◌, or_else, ltb, leb, eqb, concat, number_text,
}
use webbuilder.Json.{Json}
use webbuilder.Chat.Types.{ToolCall, ToolStatus}
use webbuilder.ToolPresentation.{is_error}
use webbuilder.ToolPresentation.Present.{Presentation, present_tool}

pub data Icon : Type 0 where
  loader check clock cross : Icon

-- the state of a row: what the user has chosen last
pub record Row : Type 0 where
  pub choice : Option Bool

abbrev pub new_row : Row
new_row = record { choice = none }

abbrev pub is_success : ToolStatus → Bool
is_success ToolStatus.success = true
is_success _ = false

unfoldable pub expanded : ToolCall → Row → Bool
expanded tool row = or_else row.choice (is_error tool.status)

-- `onToggle`, with what `event.currentTarget.open` says
unfoldable pub on_toggle : (opened : Bool) → ToolCall → Row → Row
on_toggle opened tool row =
    let differs = if expanded tool row then not opened else opened in
    if differs then record { choice = some opened } else row

abbrev pub icon : (interrupted : Bool) → ToolStatus → Icon
icon interrupted ToolStatus.running = loader
icon interrupted ToolStatus.success = check
icon interrupted ToolStatus.error = if interrupted then clock else cross

abbrev pub status_word : (interrupted : Bool) → ToolStatus → String
status_word interrupted ToolStatus.success = "Done"
status_word interrupted ToolStatus.error = if interrupted then "Stopped" else "Failed"
status_word interrupted ToolStatus.running = if interrupted then "Stopped" else "Running"

unfoldable pub chips : Presentation → List String
chips result = take 2 result.files

-- `+{…} more`, where it is shown
unfoldable pub more_text : Presentation → Option String
more_text result =
    if eqb (length result.files) 0
    then none
    else if ltb 2 result.file_count
    then some (
        concat "+" (concat (number_text (result.file_count - min (length result.files) 2)) " more"))
    else none

unfoldable pub duration_text : (to_fixed : ℕ → String) → ToolCall → Option String
duration_text to_fixed tool = elim (tool.duration_ms) [
  | none ↦ none
  | some n ↦ some (concat (to_fixed n) "s")
]

-- `prefix`: how many calls come before the first that is not a success
unfoldable pub successes : List ToolCall → ℕ
successes calls = or_else (find_index (λ tool. not (is_success tool.status)) calls) (length calls)

unfoldable pub hidden_count : List ToolCall → ℕ
hidden_count calls = min (successes calls) (length calls - 3)

unfoldable pub count : List ToolCall → ℕ
count calls = let hidden = hidden_count calls in if leb 4 hidden then hidden else 0

unfoldable pub earlier : List ToolCall → List ToolCall
earlier calls = take (count calls) calls

unfoldable pub shown : List ToolCall → List ToolCall
shown calls = drop (count calls) calls
