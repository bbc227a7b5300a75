-- ===== src/Chat/ToolList/Tests.antt =====
-- Eight calls of which the sixth failed, and a row that the user has opened.
use webbuilder.Base.{
  ℕ, zero, suc, ◌≡◌, refl, String, Bool, true, false, ◌||◌, Option, none, some, List, [], ◌∷◌,
  length, is_some, if◌then◌else◌, concat,
}
use webbuilder.Chat.Types.{ToolCall, ToolStatus}
use webbuilder.ToolPresentation.Present.{present_tool}
use webbuilder.Chat.ToolList.{
  Row, new_row, expanded, on_toggle, count, earlier, shown, chips, more_text, duration_text,
}
use webbuilder.Chat.ToolList.Folded.{IsFolded, shown-IsFolded}
use webbuilder.Samples.{tool_call, recorded, no_json}

abbrev succeeded : ToolCall
succeeded = tool_call ToolStatus.success

abbrev successes_only : ℕ → List ToolCall → List ToolCall
successes_only zero calls = calls
successes_only (suc n) calls = succeeded ∷ successes_only n calls

abbrev eight : List ToolCall
eight = successes_only 5 (tool_call ToolStatus.error ∷ successes_only 2 [])

five_earlier : count eight ≡ 5
unfolding count webbuilder.Chat.ToolList.hidden_count webbuilder.Chat.ToolList.successes
five_earlier = refl

too_few : count (successes_only 6 []) ≡ 0
unfolding count webbuilder.Chat.ToolList.hidden_count webbuilder.Chat.ToolList.successes
too_few = refl

up_to_the_failure : count (successes_only 3 (tool_call ToolStatus.running ∷ eight)) ≡ 0
unfolding count webbuilder.Chat.ToolList.hidden_count webbuilder.Chat.ToolList.successes
up_to_the_failure = refl

failed_opens : expanded (tool_call ToolStatus.error) new_row ≡ true
unfolding expanded
failed_opens = refl

chips_of_three : chips (present_tool no_json (recorded ("a" ∷ "b" ∷ "c" ∷ []))) ≡ ("a" ∷ "b" ∷ [])
unfolding chips present_tool webbuilder.ToolPresentation.distinct
    webbuilder.ToolPresentation.strings webbuilder.ToolPresentation.recorded_files
    webbuilder.ToolPresentation.parsed_of webbuilder.Json.get_field
chips_of_three = refl

more_of_three : more_text (present_tool no_json (recorded ("a" ∷ "b" ∷ "c" ∷ []))) ≡ some "+1 more"
unfolding more_text present_tool webbuilder.ToolPresentation.distinct
    webbuilder.ToolPresentation.strings webbuilder.ToolPresentation.recorded_files
    webbuilder.ToolPresentation.parsed_of webbuilder.Json.get_field webbuilder.Base.number_text
more_of_three = refl

shown-IsFolded_example : IsFolded eight
shown-IsFolded_example = shown-IsFolded eight
