-- ===== src/Chat/Events/Replay.antt =====
-- Delivery of an event more than once.
use webbuilder.Base.{
  ◌≡◌, refl, Bool, false, Option, none, some, List, [], find, find_index, arith, Option-cases, inl,
  inr, or_else,
}
use webbuilder.Chat.Types.{ToolCall, Message, RunEvent}
use webbuilder.Chat.Events.{
  has_id, run_message_id, activity_seen, has_call_id, tool_index, message_for, call_of, put_call,
  record_event, finish, ignored, updated, apply_run_event,
}
use webbuilder.Chat.Events.Calls.{
  put_call_idempotent, has_call_id_self, map-settle_idempotent, seen_in-append,
}
use webbuilder.Chat.Events.Store.{find-has_id, find-store, store-store}

abbrev pub OwnId : RunEvent → Option Message → Type 0
OwnId event none = Unit
OwnId event (some m) = m.id ≡ run_message_id event.run_id

pub id-updated :
    (event : RunEvent) (existing : Option Message)
    → OwnId event existing
    → (updated event existing).id ≡ run_message_id event.run_id
unfolding updated finish record_event message_for
id-updated event none h = ground arith
id-updated event (some m) h = ground arith

-- An event that was recorded is ignored the next time, or records the same again.
module _ (event : RunEvent) (m : Message) where
  abbrev calls : List ToolCall
  calls = or_else m.tool_calls []

  abbrev key : ToolCall → Bool
  key = has_call_id event.call_id

  calls_once :
      let once = put_call (find_index key calls) (call_of event) calls in
      put_call (find_index key once) (call_of event) once ≡ once
  calls_once =
      put_call_idempotent key (call_of event) calls
        (has_call_id_self event.call_id (call_of event) (unfold call_of in refl))

repeated :
    (event : RunEvent) (m : Message)
    → ignored event (some (updated event (some m))) ≡ false
    → updated event (some (updated event (some m))) ≡ updated event (some m)
unfolding updated ignored finish record_event message_for tool_index activity_seen
repeated event m second = ground (
  arith,
  calls_once event m,
  map-settle_idempotent (or_else m.tool_calls []),
  seen_in-append event (or_else m.activity []),
)

-- A new message is an update of the empty one.
pub updated-none :
    (event : RunEvent) → updated event none ≡ updated event (some (message_for event none))
unfolding updated message_for tool_index
updated-none event = refl

repeated_any :
    (event : RunEvent) (existing : Option Message)
    → ignored event (some (updated event existing)) ≡ false
    → updated event (some (updated event existing)) ≡ updated event existing
repeated_any event none h =
    rw updated-none (repeated event (message_for event none) (rw updated-none at h))
repeated_any event (some m) h = repeated event m h

pub OwnId-find :
    (event : RunEvent) (ms : List Message)
    → OwnId event (find (has_id (run_message_id event.run_id)) ms)
OwnId-find event ms = elim (Option-cases (find (has_id (run_message_id event.run_id)) ms)) [
  | inl e ↦ rw e tt
  | inr (m, e) ↦ rw e (find-has_id (run_message_id event.run_id) ms e)
]

-- An event that is delivered again, right after it was applied, changes nothing.
pub apply_run_event_idempotent :
    (messages : List Message) (event : RunEvent)
    → apply_run_event (apply_run_event messages event) event ≡ apply_run_event messages event
unfolding apply_run_event
apply_run_event_idempotent messages event =
    let id = run_message_id event.run_id in
    let existing = find (has_id id) messages in
    let own = id-updated event existing (OwnId-find event messages) in
    ground (
      arith,
      find-store id (updated event existing) messages own existing refl,
      store-store id (updated event existing) messages own existing refl,
      repeated_any event existing,
    )
