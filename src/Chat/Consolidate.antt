-- ===== src/Chat/Consolidate.antt =====
-- `consolidateMessages` of frontend/lib/chat/messages.ts: runs of assistant messages become one
-- card each. The loop's variables are the fields of `Cards`; the array that the source extends in
-- place is the new value of the field.
pub mod Spec
pub mod Laws
use webbuilder.Base.{
  String, Bool, true, false, not, ◌&&◌, ◌||◌, Option, none, some, List, [], ◌∷◌, ◌++◌, any,
  if◌then◌else◌, or_else, ◌==◌, is_empty, is_blank, truthy, concat,
}
use webbuilder.Chat.Types.{ToolCall, Role, Message}

-- Event types that should be consolidated into assistant messages
abbrev pub assistant_event_types : List String
assistant_event_types =
    "thinking" ∷ "tool_started" ∷ "tool_completed" ∷ "planner_complete" ∷ "builder_complete"
    ∷ "validator_complete" ∷ []

-- Event types that should be filtered out (wrapper events with no content)
abbrev pub filter_out_events : List String
filter_out_events = "started" ∷ "completed" ∷ []

abbrev includes : List String → Option String → Bool
includes names none = false
includes names (some s) = any (λ n. n == s) names

-- `msg.event_type && filterOutEvents.includes(msg.event_type)`
unfoldable pub is_wrapper : Message → Bool
is_wrapper m = truthy m.event_type && includes filter_out_events m.event_type

-- `!msg.event_type || assistantEventTypes.includes(msg.event_type)`
unfoldable pub is_grouped : Message → Bool
is_grouped m = not (truthy m.event_type) || includes assistant_event_types m.event_type

pub record Cards : Type 0 where
  pub consolidated : List Message
  pub group : Option Message

-- `if (currentAssistantGroup) { consolidated.push(currentAssistantGroup); … = null; }`
unfoldable pub close_group : Cards → Cards
close_group s = elim s.group [
  | none ↦ s
  | some g ↦ record { consolidated = s.consolidated ++ g ∷ []; group = none }
]

abbrev pub push : Message → Cards → Cards
push m s = record s { consolidated = s.consolidated ++ m ∷ [] }

-- `if (msg.tool_calls && msg.tool_calls.length > 0)`
abbrev pub append_calls : Option (List ToolCall) → Option (List ToolCall) → Option (List ToolCall)
append_calls calls none = calls
append_calls calls (some []) = calls
append_calls calls (some (c ∷ cs)) = some (or_else calls [] ++ c ∷ cs)

-- the message appended to the current group
unfoldable pub merge : Message → Message → Message
merge g m = record g {
  content = if is_blank m.content then g.content else concat g.content (concat "\n" m.content);
  tool_calls = append_calls g.tool_calls m.tool_calls;
}

-- Normalize event type for display
unfoldable pub start_group : Message → Message
start_group m = record m { event_type = some "thinking" }

unfoldable pub consolidate_one : Cards → Message → Cards
consolidate_one s m = elim m.role [
  | Role.user ↦ push m (close_group s)
  | Role.assistant ↦
      if is_wrapper m
      then s
      else if is_grouped m
      then elim s.group [
        | some g ↦ record s { group = some (merge g m) }
        | none ↦ record s { group = some (start_group m) }
      ]
      else push m (close_group s)
]

unfoldable pub consolidate_from : Cards → List Message → Cards
consolidate_from s [] = s
consolidate_from s (m ∷ ms) = consolidate_from (consolidate_one s m) ms

unfoldable pub consolidate_messages : List Message → List Message
consolidate_messages msgs =
    (close_group (consolidate_from (record { consolidated = []; group = none }) msgs)).consolidated
