-- ===== src/Chat/Events/Outcome.antt =====
-- What the message of a run says after an event.
use webbuilder.Base.{
  ◌≡◌, ◌≢◌, refl, String, true, false, not, Option, none, some, List, [], ◌∷◌, find, map,
  if◌then◌else◌, arith, eq_iff, is_some, All, or_else, truthy,
}
use webbuilder.Chat.Types.{
  ToolCall, ToolStatus, RunStatus, Message, RunEvent, run_finished, tool_started, tool_completed,
}
use webbuilder.Chat.Events.{
  has_id, run_message_id, ignored, updated, apply_run_event, finish, settle, record_event,
  message_for, is_run_finished, seen_in, activity_id, activity_seen, tool_index, has_call_id,
  call_of,
}
use webbuilder.Chat.Events.Calls.{has_call_id_self, find_index-put_call}
use webbuilder.Chat.Events.Store.{find-store}
use webbuilder.Chat.Events.Replay.{id-updated, OwnId-find, updated-none}

-- the message that shows a run
abbrev pub run_message : String → List Message → Option Message
run_message run_id = find (has_id (run_message_id run_id))

-- An event that is not ignored leaves its run's message as `updated` says.
pub run_message-apply_run_event :
    (messages : List Message) (event : RunEvent)
    → event.run_id ≢ ""
    → ignored event (run_message event.run_id messages) ≡ false
    → run_message event.run_id (apply_run_event messages event)
      ≡ some (updated event (run_message event.run_id messages))
unfolding apply_run_event
run_message-apply_run_event messages event h i =
    let id = run_message_id event.run_id in
    let existing = find (has_id id) messages in
    let own = id-updated event existing (OwnId-find event messages) in
    ground (
      arith,
      eq_iff event.run_id "",
      find-store id (updated event existing) messages own existing refl,
    )

-- No call is still running.
abbrev pub IsSettled : Option (List ToolCall) → Type 0
IsSettled none = Unit
IsSettled (some calls) = All (λ (c : ToolCall). c.status ≢ ToolStatus.running) calls

IsSettled-map : (calls : List ToolCall) → IsSettled (some (map settle calls))
unfolding settle
IsSettled-map [] = tt
IsSettled-map (c ∷ calls) = (ground arith, IsSettled-map calls)

IsSettled-calls :
    (o : Option (List ToolCall))
    → IsSettled (elim o [ none ↦ none | some calls ↦ some (map settle calls) ])
IsSettled-calls none = tt
IsSettled-calls (some calls) = IsSettled-map calls

module _ (event : RunEvent) (f : event.e ≡ run_finished) where
  ignored-run_finished : (o : Option Message) → ignored event o ≡ false
  unfolding ignored activity_seen activity_id seen_in
  ignored-run_finished none = ground arith
  ignored-run_finished (some m) = ground arith

  -- The message of a run that has finished.
  IsOver : Message → Type 0
  IsOver m =
      (m.run_status ≡ some (or_else event.status RunStatus.interrupted))
      × (m.finished_at ≡ some event.created_at)
      × IsSettled m.tool_calls

  updated-run_finished : (o : Option Message) → IsOver (updated event o)
  unfolding IsOver updated finish
  updated-run_finished o =
      let m = record_event event (tool_index event.call_id o) (message_for event o) in
      let is : is_run_finished event.e ≡ true = rw f refl in
      rw is (refl, refl, IsSettled-calls m.tool_calls)

-- After `run_finished` the run's message has the event's status (`interrupted` if it has none)
-- and its time, and no tool call in it is still running.
pub apply_run_event_finishes :
    (messages : List Message) (event : RunEvent)
    → event.run_id ≢ ""
    → event.e ≡ run_finished
    → (m : Message) × (run_message event.run_id (apply_run_event messages event) ≡ some m)
      × (m.run_status ≡ some (or_else event.status RunStatus.interrupted))
      × (m.finished_at ≡ some event.created_at)
      × IsSettled m.tool_calls
unfolding IsOver
apply_run_event_finishes messages event h f =
    let existing = run_message event.run_id messages in
    let over = updated-run_finished event f existing in
    (
      updated event existing,
      run_message-apply_run_event messages event h (ignored-run_finished event f existing),
      over.0,
      over.1,
      over.2,
    )

ignored-tool_completed :
    (event : RunEvent) (o : Option Message)
    → event.e ≡ tool_completed
    → ignored event o ≡ not (truthy event.call_id)
unfolding ignored activity_seen activity_id seen_in
ignored-tool_completed event none h = ground arith
ignored-tool_completed event (some m) h = ground arith

ignored-tool_started :
    (event : RunEvent) (o : Option Message)
    → event.e ≡ tool_started
    → ignored event o
      ≡ (if truthy event.call_id then is_some (tool_index event.call_id o) else true)
unfolding ignored activity_seen activity_id seen_in
ignored-tool_started event none h = ground arith
ignored-tool_started event (some m) h = ground arith

tool_index-updated :
    (event : RunEvent) (m : Message)
    → event.e ≡ tool_completed
    → is_some (tool_index event.call_id (some (updated event (some m)))) ≡ true
unfolding updated finish record_event message_for tool_index
tool_index-updated event m h =
    let key = has_call_id event.call_id in
    ground (
      arith,
      find_index-put_call key (call_of event) (or_else m.tool_calls [])
          (has_call_id_self event.call_id (call_of event) (unfold call_of in refl)),
    )

-- The call that has returned is found in the updated message.
tool_index-updated_any :
    (event : RunEvent) (o : Option Message)
    → event.e ≡ tool_completed
    → is_some (tool_index event.call_id (some (updated event o))) ≡ true
tool_index-updated_any event none h =
    rw updated-none (tool_index-updated event (message_for event none) h)
tool_index-updated_any event (some m) h = tool_index-updated event m h

-- A start that arrives after its tool has returned changes nothing, so the result stays.
pub apply_run_event-tool_started_late :
    (messages : List Message) (done start : RunEvent)
    → done.e ≡ tool_completed
    → start.e ≡ tool_started
    → start.run_id ≡ done.run_id
    → start.call_id ≡ done.call_id
    → apply_run_event (apply_run_event messages done) start ≡ apply_run_event messages done
unfolding apply_run_event
apply_run_event-tool_started_late messages done start d s r c =
    let id = run_message_id done.run_id in
    let existing = find (has_id id) messages in
    let own = id-updated done existing (OwnId-find done messages) in
    ground (
      arith,
      find-store id (updated done existing) messages own existing refl,
      ignored-tool_completed done existing d,
      ignored-tool_started start existing s,
      ignored-tool_started start (some (updated done existing)) s,
      tool_index-updated_any done existing d,
    )
