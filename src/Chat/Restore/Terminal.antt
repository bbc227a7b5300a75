-- ===== src/Chat/Restore/Terminal.antt =====
-- A stored run that has ended is shown as ended, whether or not its last event was stored.
use webbuilder.Base.{◌≡◌, ◌≢◌, refl, String, true, none, some, List, [], ◌∷◌, arith}
use webbuilder.Chat.Types.{Message, RunSnapshot}
use webbuilder.Chat.Events.Outcome.{run_message, IsSettled, apply_run_event_finishes}
use webbuilder.Chat.Restore.{terminal_event, apply_events, forget_time, needs_end, restore_run}

find-forget_time :
    (run_id : String) (ms : List Message) {m : Message}
    → run_message run_id ms ≡ some m
    → run_message run_id (forget_time run_id ms) ≡ some (record m { finished_at = none })
unfolding forget_time
find-forget_time run_id [] h = cc
find-forget_time run_id (x ∷ ms) {m} h = ground (arith, find-forget_time run_id ms {m = m})

-- A run whose snapshot has ended without a stored `run_finished` is shown with the snapshot's
-- status and no completion time, and none of its tool calls is still running.
pub restore_run_ends :
    (messages : List Message) (run : RunSnapshot)
    → run.id ≢ ""
    → needs_end run ≡ true
    → (m : Message) × (run_message run.id (restore_run messages run) ≡ some m)
      × (m.run_status ≡ some run.status)
      × (m.finished_at ≡ none)
      × IsSettled m.tool_calls
unfolding restore_run terminal_event
restore_run_ends messages run h n =
    let (m, found, status, _, done) =
      apply_run_event_finishes (apply_events messages run.events) (terminal_event run) h refl in
    (record m { finished_at = none }, rw n (find-forget_time run.id _ found), status, refl, done)
