-- ===== src/ToolPresentation/Tests.antt =====
-- A call that edited two files, one of them twice, and a call that its run left behind.
use webbuilder.Base.{String, ◌≡◌, ◌≢◌, refl, true, Option, none, some, List, [], ◌∷◌, any, ◌==◌}
use webbuilder.Json.{Json, num, str, arr, obj, nil, cons, end, field}
use webbuilder.Chat.Types.{ToolCall, ToolStatus}
use webbuilder.ToolPresentation.{parsed_of, strings, recorded_files, distinct}
use webbuilder.ToolPresentation.Present.{
  present_tool, summary_of, result_summary, files_summary, title_of, spaced, error_summary,
}
use webbuilder.ToolPresentation.Summary.{summary-present_tool}

abbrev no_json : String → Option Json
no_json s = none

abbrev edits : Json
edits = obj (
    field "version" (num 1)
      (field "changed_files" (arr (cons (str "a") (cons (str "b") (cons (str "a") nil)))) end))

abbrev call : ToolStatus → ToolCall
call status = record {
  id = some "c1";
  name = "write_files";
  status = status;
  output = none;
  duration_ms = none;
  details = some edits;
  run_id = some "r1";
  event_id = some "r1:2";
}

edit_summary : (present_tool no_json (call ToolStatus.success)).summary ≡ "2 files updated"
unfolding present_tool summary_of result_summary parsed_of webbuilder.Json.get_field distinct
    strings recorded_files files_summary webbuilder.Base.number_text
edit_summary = refl

failed_summary : error_summary "\n boom\nat line 3" ≡ "boom"
unfolding error_summary webbuilder.Base.slice webbuilder.Base.split_on webbuilder.Base.trim
    webbuilder.Base.utf16_length
failed_summary = refl

custom_title :
    title_of (record (call ToolStatus.success) { name = "my_own_tool" }) none ≡ "my own tool"
unfolding title_of spaced
custom_title = refl

summary-present_tool_example : (present_tool no_json (call ToolStatus.running)).summary ≢ ""
summary-present_tool_example = summary-present_tool no_json (call ToolStatus.running)
