-- ===== src/Chat/Events.antt =====
-- `applyRunEvent` of frontend/socket/handleChatEvent.ts: one progress event folded into the
-- messages of a chat.
pub mod Calls
pub mod Store
pub mod Replay
pub mod Frame
pub mod Outcome
use webbuilder.Base.{
  ℕ, String, Bool, true, false, not, ◌&&◌, Option, none, some, List, [], ◌∷◌, ◌++◌, map, any, find,
  find_index, set, if◌then◌else◌, or_else, is_some, ◌==◌, is_empty, truthy, concat,
}
use webbuilder.Chat.Types.{
  RunStatus, ToolStatus, ToolCall, ActivityKind, ActivityItem, Role, Message, EventName, RunEvent,
  stage, verification, tool_started, tool_completed, run_started, run_finished, other,
}

-- the text of an event's name, as a template literal prints it
abbrev pub event_name : EventName → String
event_name run_started = "run_started"
event_name stage = "stage"
event_name verification = "verification"
event_name tool_started = "tool_started"
event_name tool_completed = "tool_completed"
event_name run_finished = "run_finished"
event_name (other s) = s

abbrev pub is_activity : EventName → Bool
is_activity stage = true
is_activity verification = true
is_activity _ = false

abbrev pub is_tool : EventName → Bool
is_tool tool_started = true
is_tool tool_completed = true
is_tool _ = false

abbrev pub is_tool_started : EventName → Bool
is_tool_started tool_started = true
is_tool_started _ = false

abbrev pub is_run_finished : EventName → Bool
is_run_finished run_finished = true
is_run_finished _ = false

-- `run:${event.run_id}`
abbrev pub run_message_id : String → String
run_message_id run_id = concat "run:" run_id

abbrev pub has_id : String → Message → Bool
has_id id m = m.id == id

-- `event.event_id || …`, the identity of a stage or verification item
unfoldable pub activity_id : RunEvent → Option String
activity_id event =
    if is_activity event.e
    then some (
        if is_empty event.event_id
        then concat (event_name event.e)
            (concat ":" (concat event.created_at (concat ":" (or_else event.message "undefined"))))
        else event.event_id)
    else none

-- `existing?.activity?.some(…)` guarded by `activityId !== undefined`
unfoldable pub seen_in : Option String → List ActivityItem → Bool
seen_in none items = false
seen_in (some id) items = any (λ (item : ActivityItem). item.id == id) items

unfoldable pub activity_seen : Option String → Option Message → Bool
activity_seen id none = false
activity_seen id (some m) = seen_in id (or_else m.activity [])

abbrev pub has_call_id : Option String → ToolCall → Bool
has_call_id none call = not (is_some call.id)
has_call_id (some id) call = elim call.id [ none ↦ false | some c ↦ c == id ]

-- `existing?.tool_calls?.findIndex(…) ?? -1`, with `none` for -1
unfoldable pub tool_index : Option String → Option Message → Option ℕ
tool_index call_id none = none
tool_index call_id (some m) = find_index (has_call_id call_id) (or_else m.tool_calls [])

-- the copy of the run's message, or a new one
unfoldable pub message_for : RunEvent → Option Message → Message
message_for event (some m) = record m {
  activity = some (or_else m.activity []);
  tool_calls = some (or_else m.tool_calls []);
}
message_for event none = record {
  id = run_message_id event.run_id;
  role = Role.assistant;
  content = "";
  created_at = event.created_at;
  event_type = some "run";
  tool_calls = some [];
  activity = some [];
  run_status = some RunStatus.running;
  finished_at = none;
}

abbrev pub call_status : RunEvent → ToolStatus
call_status event =
    if is_tool_started event.e
    then ToolStatus.running
    else if or_else event.ok false
    then ToolStatus.success
    else ToolStatus.error

abbrev pub or_default : Option String → String → String
or_default o d = if truthy o then or_else o d else d

unfoldable pub call_of : RunEvent → ToolCall
call_of event = record {
  id = event.call_id;
  name = or_default event.name "Tool";
  status = call_status event;
  output = event.output;
  details = event.details;
  duration_ms = event.duration_ms;
  run_id = some event.run_id;
  event_id = some event.event_id;
}

-- `if (toolIndex < 0) calls.push(call); else calls[toolIndex] = call;`
unfoldable pub put_call : Option ℕ → ToolCall → List ToolCall → List ToolCall
put_call none call calls = calls ++ call ∷ []
put_call (some i) call calls = set calls i call

abbrev pub activity_kind : EventName → ActivityKind
activity_kind stage = ActivityKind.stage
activity_kind _ = ActivityKind.verification

unfoldable pub item_of : RunEvent → ActivityItem
unfolding activity_id
item_of event = record {
  id = or_else (activity_id event) "";
  kind = activity_kind event.e;
  created_at = event.created_at;
  message = event.message;
  ok = event.ok;
  checks = event.checks;
}

-- the three branches that record the event in the message
unfoldable pub record_event : RunEvent → Option ℕ → Message → Message
record_event event index m =
    if is_tool event.e
    then record m { tool_calls = some (put_call index (call_of event) (or_else m.tool_calls [])) }
    else if is_activity event.e
    then record m { activity = some (or_else m.activity [] ++ item_of event ∷ []) }
    else record m { content = or_default event.message m.content }

-- what a call that is still running becomes when its run ends
unfoldable pub settle : ToolCall → ToolCall
settle call = elim call.status [
  | ToolStatus.running ↦ record call {
    status = ToolStatus.error;
    output = some "Run ended before this operation completed.";
  }
  | _ ↦ call
]

unfoldable pub finish : RunEvent → Message → Message
finish event m =
    if is_run_finished event.e
    then record m {
      run_status = some (or_else event.status RunStatus.interrupted);
      finished_at = some event.created_at;
      tool_calls = elim m.tool_calls [ none ↦ none | some calls ↦ some (map settle calls) ];
    }
    else m

-- `messages.map((m) => (m.id === id ? message : m))`
unfoldable pub replace : String → Message → List Message → List Message
replace id message ms = map (λ m. if has_id id m then message else m) ms

-- the last line: the message stands where it stood, or at the end
unfoldable pub store : String → Option Message → Message → List Message → List Message
store id none message ms = ms ++ message ∷ []
store id (some old) message ms = replace id message ms

-- the events that change nothing: replays, and tool events that name no call
unfoldable pub ignored : RunEvent → Option Message → Bool
ignored event existing =
    if activity_seen (activity_id event) existing
    then true
    else if is_tool event.e
    then if truthy event.call_id
      then is_tool_started event.e && is_some (tool_index event.call_id existing)
      else true
    else false

-- the run's message after the event
unfoldable pub updated : RunEvent → Option Message → Message
updated event existing =
    finish event
      (record_event event (tool_index event.call_id existing) (message_for event existing))

unfoldable pub apply_run_event : List Message → RunEvent → List Message
apply_run_event messages event =
    if is_empty event.run_id
    then messages
    else let id = run_message_id event.run_id in
      let existing = find (has_id id) messages in
      if ignored event existing
      then messages
      else store id existing (updated event existing) messages
