-- ===== src/ToolPresentation/Present.antt =====
-- `presentTool` itself: the summary, the title, and what it returns.
use webbuilder.Base.{
  slice, ℕ, String, Bool, not, ◌&&◌, Option, List, find, length, if◌then◌else◌, or_else, is_some,
  ◌==◌, is_empty, truthy, concat, join, trim, eqb, number_text,
}
use webbuilder.Json.{Json, Fields}
use webbuilder.Chat.Types.{ToolCall}
use webbuilder.ToolPresentation.{
  label, parsed_of, record_of, value_of, strings, text, distinct, recorded_files, is_array,
  number_of, is_true, is_truthy, is_error, is_running, error_of, split_lines, plural,
  is_interrupted,
}

pub record Presentation : Type 0 where
  pub file_count : ℕ
  pub target_files : Bool
  pub truncated_fields : List String
  pub command : String
  pub input_omitted : Bool
  pub title : String
  pub summary : String
  pub files : List String
  pub references : List String
  pub stdout : String
  pub stderr : String
  pub error : String
  pub exit_code : Option ℕ
  pub interrupted : Bool
  pub changed : Bool
  pub parsed : Option Json

unfoldable pub error_summary : String → String
error_summary error =
    let line = slice 220 (or_else (find (λ l. not (is_empty l)) (split_lines (trim error))) "") in
    if is_empty line then "This operation did not complete successfully." else line

unfoldable pub files_summary : ℕ → Option Fields → String
files_summary count fields =
    let action =
      if is_array (value_of fields "paths")
      then "targeted"
      else if is_truthy (value_of fields "changed_files")
      then "updated"
      else "read" in
    concat (number_text count)
      (concat " " (concat (plural count "file" "files") (concat " " action)))

unfoldable pub references_summary : ℕ → String
references_summary count =
    concat (number_text count) (concat " matching " (plural count "message" "messages"))

-- the branches for a call that has not failed
unfoldable pub result_summary : ToolCall → Option Fields → ℕ → String
result_summary tool fields count =
    let exit_code = number_of (value_of fields "exit_code") in
    if not (eqb count 0)
    then files_summary count fields
    else if is_some (value_of fields "message_ids")
    then references_summary (length (strings (value_of fields "message_ids")))
    else if tool.name == "inspect_preview" && is_true (value_of fields "checked")
    then concat (join " and " (strings (value_of fields "viewports"))) " preview inspected"
    else if is_some exit_code
    then concat "Exited with code " (number_text (or_else exit_code 0))
    else if is_running tool.status
    then "Waiting for result…"
    else if truthy tool.output
    then "Result available"
    else "No output recorded"

unfoldable pub summary_of : ToolCall → Option Fields → String → ℕ → String
summary_of tool fields error count =
    if is_interrupted tool
    then "The run ended before this tool returned a result."
    else if is_error tool.status
    then error_summary error
    else result_summary tool fields count

-- `name.replaceAll("_", " ")`
unfoldable pub spaced : String → String
spaced String.[] = ""
spaced (String.◌∷◌ c s) =
    let rest = spaced s in
    if String.◌∷◌ c String.[] == "_" then concat " " rest else String.◌∷◌ c rest

unfoldable pub title_of : ToolCall → Option Fields → String
title_of tool fields =
    let skill_name = if tool.name == "read_skill" then text fields "name" else "" in
    if is_empty skill_name
    then or_else (label tool.name) (spaced tool.name)
    else concat "Read skill · " skill_name

module _ (parse_json : String → Option Json) where
  unfoldable pub present_tool : ToolCall → Presentation
  present_tool tool =
      let parsed = parsed_of parse_json tool in
      let fields = record_of parsed in
      let files = distinct (strings (recorded_files fields)) in
      let count = or_else (number_of (value_of fields "file_count")) (length files) in
      record {
        file_count = count;
        target_files = is_array (value_of fields "paths");
        truncated_fields = strings (value_of fields "truncated_fields");
        command = text fields "command";
        input_omitted = is_true (value_of fields "input_omitted");
        title = title_of tool fields;
        summary = summary_of tool fields (error_of parsed tool) count;
        files = files;
        references = strings (value_of fields "message_ids");
        stdout = text fields "stdout";
        stderr = text fields "stderr";
        error = error_of parsed tool;
        exit_code = number_of (value_of fields "exit_code");
        interrupted = is_interrupted tool;
        changed = is_truthy (value_of fields "changed_files");
        parsed = parsed;
      }
