-- ===== src/Chat/MessageBubble.antt =====
-- How a message is shown: frontend/components/chat/MessageBubble.tsx. The two regular expressions
-- are functions: `[^\n]*\n` reads to the end of the line, and the lazy body to the first fence.
pub mod Fences
mod Finds
mod Matches
pub mod Parts
pub mod Shown
mod Tests
use Prim.Native.Char.{Char}
use Prim.Native.String
use webbuilder.Base.{
  ℕ, zero, suc, ◌+◌, String, Bool, true, false, not, ◌&&◌, ◌||◌, Option, none, some, List, [], ◌∷◌,
  ◌++◌, length, eqb, if◌then◌else◌, or_else, is_empty, is_some, truthy, ◌==◌, concat, trim,
}
use webbuilder.Chat.Types.{Message, RunStatus, Role}
use webbuilder.ToolPresentation.{is_newline}

-- a text that is cut in two
pub record Cut : Type 0 where
  pub before : String
  pub after : String

abbrev pub widen : Char → Option Cut → Option Cut
widen c none = none
widen c (some cut) = some (record cut { before = String.◌∷◌ c cut.before })

abbrev pub is_tick : Char → Bool
is_tick c = String.◌∷◌ c String.[] == "`"

-- what follows `n` backticks
unfoldable pub after_ticks : ℕ → String → Option String
after_ticks zero s = some s
after_ticks (suc n) String.[] = none
after_ticks (suc n) (String.◌∷◌ c s) = if is_tick c then after_ticks n s else none

-- `[^\n]*\n`
unfoldable pub line_end : String → Option Cut
line_end String.[] = none
line_end (String.◌∷◌ c s) =
    let rest = line_end s in
    if is_newline c then some (record { before = ""; after = s }) else widen c rest

abbrev pub cut_here : Option String → Option Cut → Option Cut
cut_here none later = later
cut_here (some after) later = some (record { before = ""; after = after })

-- "[\s\S]*?```"
unfoldable pub closing : String → Option Cut
closing String.[] = none
closing (String.◌∷◌ c s) = cut_here (after_ticks 3 (String.◌∷◌ c s)) (widen c (closing s))

pub record Fence : Type 0 where
  pub language : String
  pub code : String
  pub after : String

abbrev pub with_code : String → Option Cut → Option Fence
with_code language none = none
with_code language (some cut) =
    some (record { language = language; code = cut.before; after = cut.after })

abbrev pub with_line : Option Cut → Option Fence
with_line none = none
with_line (some cut) = with_code cut.before (closing cut.after)

abbrev pub with_ticks : Option String → Option Fence
with_ticks none = none
with_ticks (some s) = with_line (line_end s)

-- "```[^\n]*\n[\s\S]*?```" where it matches at the beginning of a text
unfoldable pub fence_at : String → Option Fence
fence_at s = with_ticks (after_ticks 3 s)

-- what the match is
abbrev pub fence_text : (language code : String) → String
fence_text language code = concat "```" (concat language (concat "\n" (concat code "```")))

abbrev pub in_front : Char → Option (List String) → Option (List String)
in_front c none = none
in_front c (some []) = some []
in_front c (some (part ∷ parts)) = some (String.◌∷◌ c part ∷ parts)

abbrev pub after_fence : Fence → Option (List String) → Option (List String)
after_fence f none = none
after_fence f (some parts) = some ("" ∷ fence_text f.language f.code ∷ parts)

-- `content.split(…)`: the texts between the matches, and the matches; `none` is out of fuel
unfoldable pub split_fences : (fuel : ℕ) → String → Option (List String)
split_fences zero s = none
split_fences (suc fuel) String.[] = some ("" ∷ [])
split_fences (suc fuel) (String.◌∷◌ c s) = elim (fence_at (String.◌∷◌ c s)) [
  | none ↦ in_front c (split_fences fuel s)
  | some f ↦ after_fence f (split_fences fuel f.after)
]

unfoldable pub size : String → ℕ
size String.[] = 0
size (String.◌∷◌ c s) = suc (size s)

unfoldable pub parts : String → List String
parts content = or_else (split_fences (suc (size content)) content) []

-- "[\s\S]*?```$"
unfoldable pub closing_end : String → Option String
closing_end String.[] = none
closing_end (String.◌∷◌ c s) =
    let rest = closing_end s in
    if String.◌∷◌ c s == "```"
    then some ""
    else elim rest [ none ↦ none | some code ↦ some (String.◌∷◌ c code) ]

abbrev pub with_end : String → Option String → Option Fence
with_end language none = none
with_end language (some code) = some (record { language = language; code = code; after = "" })

abbrev pub end_of_line : Option Cut → Option Fence
end_of_line none = none
end_of_line (some cut) = with_end cut.before (closing_end cut.after)

abbrev pub end_of_ticks : Option String → Option Fence
end_of_ticks none = none
end_of_ticks (some s) = end_of_line (line_end s)

-- "part.match(/^```([^\n]*)\n([\s\S]*?)```$/)"
unfoldable pub match_fence : String → Option Fence
match_fence part = end_of_ticks (after_ticks 3 part)

pub data Block : Type 0 where
  code_listing : (language value : String) → Block
  paragraph : String → Block

-- "replace(/\n$/, \"\")"
unfoldable pub drop_newline : String → String
drop_newline String.[] = ""
drop_newline (String.◌∷◌ c s) =
    let rest = drop_newline s in if String.◌∷◌ c s == "\n" then "" else String.◌∷◌ c rest

abbrev pub code_block : Fence → Block
code_block f =
    let language = trim f.language in
    code_listing (if is_empty language then "code" else language) (drop_newline f.code)

unfoldable pub show_part : String → List Block
show_part part = elim (match_fence part) [
  | some f ↦ code_block f ∷ []
  | none ↦ if is_empty (trim part) then [] else paragraph part ∷ []
]

unfoldable pub show_parts : List String → List Block
show_parts [] = []
show_parts (part ∷ rest) = show_part part ++ show_parts rest

unfoldable pub message_content : String → List Block
message_content content = show_parts (parts content)

abbrev pub is_nonempty {ℓ} : {A : Type ℓ} → Option (List A) → Bool
is_nonempty none = false
is_nonempty (some items) = not (eqb (length items) 0)

unfoldable pub has_run : Message → Bool
has_run m = is_some m.run_status || is_nonempty m.tool_calls || is_nonempty m.activity

abbrev pub is_running : Option RunStatus → Bool
is_running (some RunStatus.running) = true
is_running _ = false

-- what is shown of a message; `activity` is whether its run is shown, and `copies` whether the button
-- that copies its text is
pub data Bubble : Type 0 where
  user_text : String → Bubble
  response : (activity : Bool) → (blocks : List Block) → (copies : Bool) → Bubble

unfoldable pub bubble : Message → Bubble
bubble m = elim (m.role) [
  | Role.user ↦ user_text m.content
  | Role.assistant ↦
      response (has_run m) (if is_empty m.content then [] else message_content m.content)
        (not (is_empty m.content) && not (is_running m.run_status))
]

-- `copyStatus` after a click on that button, where `writes` says whether the clipboard takes the text
abbrev pub copy_status : (writes : Bool) → String
copy_status writes =
    if writes then "Copied" else "Could not copy. Select the response text to copy it."
