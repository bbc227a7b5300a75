-- ===== src/Chat/ToolResult/Tests.antt =====
-- A call that has failed with plain text, and one that has recorded two files.
use webbuilder.Base.{◌≡◌, refl, some, [], ◌∷◌}
use webbuilder.Json.{Json, num, str, arr, obj, nil, cons, end, field}
use webbuilder.Chat.Types.{ToolCall, ToolStatus}
use webbuilder.ToolPresentation.{parsed_of}
use webbuilder.ToolPresentation.Present.{present_tool}
use webbuilder.Chat.ToolResult.{
  Copying, file_list, listing, notice, recorded_result, copy_actions, tool_result, reference_text,
  copy,
}
use webbuilder.Chat.ToolResult.Recorded.{IsIn, answer, answer-tool_result}
use webbuilder.Samples.{tool_call, recorded, no_json}

abbrev failed : ToolCall
failed = record (tool_call ToolStatus.error) { output = some "no such file" }

failed_call :
    tool_result failed (present_tool no_json failed)
    ≡ (listing "error" "no such file" ∷ copy_actions (str "no such file") ∷ [])
unfolding tool_result webbuilder.Chat.ToolResult.context present_tool
    webbuilder.ToolPresentation.distinct webbuilder.ToolPresentation.strings
    webbuilder.ToolPresentation.recorded_files parsed_of webbuilder.ToolPresentation.text
    webbuilder.Chat.ToolResult.terminal webbuilder.Chat.ToolResult.failure
    webbuilder.ToolPresentation.error_of webbuilder.ToolPresentation.fallback_error
    webbuilder.Chat.ToolResult.actions webbuilder.Chat.ToolResult.ending
failed_call = refl

waiting :
    tool_result (tool_call ToolStatus.running) (present_tool no_json (tool_call ToolStatus.running))
    ≡ (notice "Waiting for the tool result…" ∷ [])
unfolding tool_result webbuilder.Chat.ToolResult.context present_tool
    webbuilder.ToolPresentation.distinct webbuilder.ToolPresentation.strings
    webbuilder.ToolPresentation.recorded_files parsed_of webbuilder.ToolPresentation.text
    webbuilder.Chat.ToolResult.terminal webbuilder.Chat.ToolResult.failure
    webbuilder.ToolPresentation.error_of webbuilder.Chat.ToolResult.actions
    webbuilder.Chat.ToolResult.ending
waiting = refl

recorded_files : (present_tool no_json (recorded ("a" ∷ "b" ∷ []))).files ≡ ("a" ∷ "b" ∷ [])
unfolding present_tool webbuilder.ToolPresentation.distinct webbuilder.ToolPresentation.strings
    webbuilder.ToolPresentation.recorded_files parsed_of webbuilder.Json.get_field
recorded_files = refl

reference : reference_text failed ≡ some "Run r1 / Tool c1"
unfolding reference_text
reference = refl

answer-tool_result_example :
    IsIn
      (answer ToolStatus.error (some "no such file") (parsed_of no_json failed))
      (tool_result failed (present_tool no_json failed))
answer-tool_result_example = answer-tool_result no_json failed
