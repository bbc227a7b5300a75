-- ===== src/ToolPresentation.antt =====
-- `presentTool` of frontend/lib/tool-presentation.ts. `JSON.parse` is an argument, `none` where it
-- throws. `undefined` is `none`, and `null` is the JSON value.
pub mod Present
pub mod Files
pub mod Summary
mod Tests
use Prim.Native.Char.{Char}
use Prim.Native.String
use webbuilder.Base.{
  ℕ, suc, ◌+◌, ◌-◌, String, Bool, true, false, not, ◌&&◌, ◌||◌, Option, none, some, List, [], ◌∷◌,
  ◌++◌, map, any, find, filter, length, set, if◌then◌else◌, or_else, is_some, first_of_two, ◌==◌,
  is_empty, truthy, concat, split_on, slice, join, trim, eqb, leb, ltb, number_text, utf16_length,
}
use webbuilder.Json.{
  Json, null, bool, num, str, arr, obj, Items, nil, cons, Fields, end, field, get_field,
}
use webbuilder.Chat.Types.{ToolCall, ToolStatus}

abbrev pub label : String → Option String
label name =
    if name == "read_skill"
    then some "Read skill"
    else if name == "read_files"
    then some "Read files"
    else if name == "write_files"
    then some "Edit files"
    else if name == "execute_command"
    then some "Run command"
    else if name == "inspect_preview"
    then some "Inspect preview"
    else if name == "run_command"
    then some "Run command"
    else if name == "search_project_history"
    then some "Search project history"
    else if name == "list_files"
    then some "List files"
    else none

abbrev pub is_version_one : Option Json → Bool
is_version_one (some (obj fields)) = elim (get_field "version" fields) [
  | some (num n) ↦ eqb n 1
  | _ ↦ false
]
is_version_one _ = false

module _ (parse_json : String → Option Json) where
  unfoldable pub parsed_of : ToolCall → Option Json
  parsed_of tool =
      if is_version_one tool.details
      then tool.details
      else if truthy tool.output
      then parse_json (or_else tool.output "")
      else none

abbrev pub record_of : Option Json → Option Fields
record_of (some (obj fields)) = some fields
record_of _ = none

-- `record?.[key]`
abbrev pub value_of : Option Fields → String → Option Json
value_of none key = none
value_of (some fields) key = get_field key fields

unfoldable pub strings_in : Items → List String
strings_in nil = []
strings_in (cons (str s) items) = s ∷ strings_in items
strings_in (cons _ items) = strings_in items

-- `strings(value)`
unfoldable pub strings : Option Json → List String
unfolding strings_in
strings (some (arr items)) = strings_in items
strings _ = []

-- `text(key)`
unfoldable pub text : Option Fields → String → String
text fields key = elim (value_of fields key) [ some (str s) ↦ s | _ ↦ "" ]

-- `a ?? b`
abbrev pub coalesce : Option Json → Option Json → Option Json
coalesce none b = b
coalesce (some null) b = b
coalesce a b = a

-- `[...new Set(texts)]`
unfoldable pub distinct : List String → List String
distinct [] = []
distinct (x ∷ xs) = x ∷ filter (λ y. not (y == x)) (distinct xs)

unfoldable pub recorded_files : Option Fields → Option Json
recorded_files fields =
    coalesce (coalesce (value_of fields "changed_files") (value_of fields "files"))
      (value_of fields "paths")

abbrev pub is_array : Option Json → Bool
is_array (some (arr items)) = true
is_array _ = false

abbrev pub number_of : Option Json → Option ℕ
number_of (some (num n)) = some n
number_of _ = none

abbrev pub is_true : Option Json → Bool
is_true (some (bool b)) = b
is_true _ = false

-- `Boolean(value)`
abbrev pub is_truthy : Option Json → Bool
is_truthy none = false
is_truthy (some null) = false
is_truthy (some (bool b)) = b
is_truthy (some (num n)) = not (eqb n 0)
is_truthy (some (str s)) = not (is_empty s)
is_truthy (some (arr items)) = true
is_truthy (some (obj fields)) = true

abbrev pub is_error : ToolStatus → Bool
is_error ToolStatus.error = true
is_error _ = false

abbrev pub is_running : ToolStatus → Bool
is_running ToolStatus.running = true
is_running _ = false

-- the text of a failed call that records none
unfoldable pub fallback_error : Option Json → String → Option String → String
fallback_error parsed stderr output =
    if not (is_empty stderr)
    then stderr
    else elim parsed [ some (str s) ↦ s | none ↦ or_else output "" | _ ↦ "" ]

unfoldable pub error_of : Option Json → ToolCall → String
error_of parsed tool =
    let fields = record_of parsed in
    if is_empty (text fields "error") && is_error tool.status
    then fallback_error parsed (text fields "stderr") tool.output
    else text fields "error"

-- `error.trim().split("\n").find(Boolean)`
abbrev pub is_newline : Char → Bool
is_newline c = String.◌∷◌ c String.[] == "\n"

abbrev pub split_lines : String → List String
split_lines s = split_on is_newline s

abbrev pub interruption : String
interruption = "Run ended before this operation completed."

abbrev pub plural : ℕ → String → String → String
plural n one many = if eqb n 1 then one else many

abbrev pub is_interrupted : ToolCall → Bool
is_interrupted tool = is_error tool.status && or_else tool.output "" == interruption
