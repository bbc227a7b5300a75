-- ===== src/Chat/ToolResult.antt =====
-- What an opened row says of its call, from top to bottom: `ToolResult` of
-- frontend/components/chat/ToolResult.tsx, with the handlers of its buttons. `stringify` is
-- `JSON.stringify(value, null, 2)`.
pub mod Recorded
mod Tests
use webbuilder.Base.{
  ℕ, String, Bool, true, false, not, ◌&&◌, ◌||◌, Option, none, some, List, [], ◌∷◌, ◌++◌, length,
  eqb, if◌then◌else◌, or_else, is_empty, is_some, truthy, concat, join,
}
use webbuilder.Json.{Json, str, obj, Fields, end, field}
use webbuilder.Chat.Types.{ToolCall, ToolStatus}
use webbuilder.ToolPresentation.{is_running}
use webbuilder.ToolPresentation.Present.{Presentation}

pub data Section : Type 0 where
  file_list : (title : String) → List String → Section
  reference_list : List String → Section
  listing : (language value : String) → Section
  exit_code : ℕ → Section
  notice : String → Section
  recorded_result : Json → Section
  copy_actions : Json → Section

abbrev pub when : Bool → Section → List Section
when shown section = if shown then section ∷ [] else []

abbrev pub has_terminal : Presentation → Bool
has_terminal r = not (is_empty r.stdout) || not (is_empty r.stderr) || is_some r.exit_code

unfoldable pub context : Presentation → List Section
context r =
    let title =
      if r.target_files
      then "Target files"
      else if r.changed
      then "Updated files"
      else "Files read" in
    when (not (eqb (length r.files) 0)) (file_list title r.files)
    ++ when (not (eqb (length r.references) 0)) (reference_list r.references)
    ++ when (not (is_empty r.command)) (listing "command" r.command)
    ++ when r.input_omitted (notice "Command text omitted from public activity.")
    ++ when (not (eqb (length r.truncated_fields) 0)) (
        notice (
          concat "Recorded excerpts only. Shortened fields: "
            (concat (join ", " r.truncated_fields) ".")))

abbrev pub exit_section : Option ℕ → List Section
exit_section none = []
exit_section (some n) = exit_code n ∷ []

unfoldable pub terminal : Presentation → List Section
terminal r =
    if has_terminal r
    then exit_section r.exit_code
      ++ when (not (is_empty r.stdout)) (listing "stdout" r.stdout)
      ++ when (not (is_empty r.stderr)) (listing "stderr" r.stderr)
    else []

unfoldable pub failure : Presentation → List Section
failure r = when (not (is_empty r.error) && not (has_terminal r)) (listing "error" r.error)

abbrev pub result_section : (error : String) → (output : Option String) → Option Json → List Section
result_section error output (some json) = recorded_result json ∷ []
result_section error output none =
    when (truthy output && is_empty error) (listing "output" (or_else output ""))

-- `result.parsed ?? tool.output`
abbrev pub copied : (output : Option String) → Option Json → Json
copied output (some Json.null) = str (or_else output "")
copied output (some json) = json
copied output none = str (or_else output "")

unfoldable pub actions : ToolCall → Presentation → List Section
actions tool r =
    when (not (is_running tool.status) && (is_some r.parsed || truthy tool.output))
      (copy_actions (copied tool.output r.parsed))

unfoldable pub ending : ToolCall → Presentation → List Section
ending tool r = when (not (truthy tool.output) && not (is_some r.parsed)) (
    notice (
      if is_running tool.status then "Waiting for the tool result…" else "No output was recorded."))

unfoldable pub tool_result : ToolCall → Presentation → List Section
tool_result tool r =
    context r
    ++ terminal r
    ++ failure r
    ++ result_section r.error tool.output r.parsed
    ++ actions tool r
    ++ ending tool r

abbrev pub status_text : ToolStatus → String
status_text ToolStatus.running = "running"
status_text ToolStatus.success = "success"
status_text ToolStatus.error = "error"

-- a field that `JSON.stringify` leaves out where its value is `undefined`
abbrev pub given : String → Option String → Fields → Fields
given key none rest = rest
given key (some s) rest = field key (str s) rest

-- what "Copy result" puts on the clipboard
unfoldable pub copied_call : ToolCall → Json → Json
copied_call tool value = obj (
    given "run_id" tool.run_id (
      given "call_id" tool.id (
        given "event_id" tool.event_id (
          field "tool" (str tool.name)
            (field "status" (str (status_text tool.status)) (field "result" value end))))))

-- what "Copy reference" puts there, where that button is shown
unfoldable pub reference_text : ToolCall → Option String
reference_text tool =
    if truthy tool.run_id && truthy tool.id
    then some
        (concat "Run " (concat (or_else tool.run_id "") (concat " / Tool " (or_else tool.id ""))))
    else none

-- the text below the buttons, and the toast
pub record Copying : Type 0 where
  pub status : String
  pub toast : Option String

-- `copy`, where `writes` says whether the clipboard takes the text
unfoldable pub copy : (writes : Bool) → (success : String) → Copying → Copying
copy writes success c =
    let begun : Copying = record c { status = "" } in
    if writes
    then record begun { toast = some success }
    else record begun { status = "Copy failed. Select the visible text to copy it." }
