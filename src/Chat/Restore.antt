-- ===== src/Chat/Restore.antt =====
-- `restoreRuns` of frontend/socket/handleChatEvent.ts: the messages of the stored runs, sorted by
-- time. `Date.parse` is a parameter; `none` is its NaN. A comparison with NaN counts as equal, and
-- the sort of the JavaScript runtime is stable, so it is written here as an insertion sort.
pub mod Sorted
pub mod Terminal
use webbuilder.Base.{
  ℕ, String, Bool, true, false, not, ◌&&◌, Option, none, some, List, [], ◌∷◌, ◌++◌, map, any,
  if◌then◌else◌, or_else, first_of_two, last?, ◌==◌, concat, truthy, ltb,
}
use webbuilder.Chat.Types.{
  RunStatus, running, succeeded, failed, cancelled, timed_out, interrupted, Message, RunEvent,
  RunSnapshot, EventName, run_finished,
}
use webbuilder.Chat.Events.{apply_run_event, has_id, run_message_id, is_run_finished, or_default}

abbrev pub is_running : RunStatus → Bool
is_running RunStatus.running = true
is_running _ = false

abbrev pub status_name : RunStatus → String
status_name RunStatus.running = "running"
status_name succeeded = "succeeded"
status_name failed = "failed"
status_name cancelled = "cancelled"
status_name timed_out = "timed_out"
status_name interrupted = "interrupted"

-- `new Date(0).toISOString()`
abbrev pub epoch : String
epoch = "1970-01-01T00:00:00.000Z"

abbrev last_time : List RunEvent → Option String
last_time events = elim (last? events) [ none ↦ none | some e ↦ some e.created_at ]

-- `run.events.at(-1)?.created_at || run.created_at || new Date(0).toISOString()`
unfoldable pub end_time : RunSnapshot → String
end_time run = or_default (last_time run.events) (or_default run.created_at epoch)

-- the event that stands for a missing `run_finished`
unfoldable pub terminal_event : RunSnapshot → RunEvent
terminal_event run = record {
  e = run_finished;
  run_id = run.id;
  event_id = concat run.id ":terminal";
  created_at = end_time run;
  name = none;
  call_id = none;
  ok = none;
  status = some run.status;
  message = some (or_default run.reason (concat "Run " (status_name run.status)));
  output = none;
  details = none;
  duration_ms = none;
  url = none;
  checks = none;
}

unfoldable pub apply_events : List Message → List RunEvent → List Message
apply_events messages [] = messages
apply_events messages (e ∷ events) = apply_events (apply_run_event messages e) events

-- A terminal snapshot without its event has no trustworthy completion time.
unfoldable pub forget_time : String → List Message → List Message
forget_time run_id =
    map (λ m. if has_id (run_message_id run_id) m then record m { finished_at = none } else m)

unfoldable pub needs_end : RunSnapshot → Bool
needs_end run =
    not (is_running run.status) && not (any (λ (e : RunEvent). is_run_finished e.e) run.events)

-- one round of the loop over the runs
unfoldable pub restore_run : List Message → RunSnapshot → List Message
restore_run messages run =
    let result = apply_events messages run.events in
    if needs_end run
    then forget_time run.id (apply_run_event result (terminal_event run))
    else result

unfoldable pub restore_all : List Message → List RunSnapshot → List Message
restore_all messages [] = messages
restore_all messages (run ∷ runs) = restore_all (restore_run messages run) runs

module _ (parse_date : String → Option ℕ) where
  -- `Date.parse(a.created_at) - Date.parse(b.created_at) > 0`
  unfoldable pub is_later : Message → Message → Bool
  is_later a b = elim (parse_date a.created_at) [
    | none ↦ false
    | some s ↦ elim (parse_date b.created_at) [ none ↦ false | some t ↦ ltb t s ]
  ]

  -- behind every message that is not later
  unfoldable pub insert_by_time : Message → List Message → List Message
  insert_by_time m [] = m ∷ []
  insert_by_time m (x ∷ xs) =
      let rest = x ∷ insert_by_time m xs in if is_later x m then m ∷ x ∷ xs else rest

  unfoldable pub sort_from : List Message → List Message → List Message
  sort_from sorted [] = sorted
  sort_from sorted (m ∷ ms) = sort_from (insert_by_time m sorted) ms

  unfoldable pub sort_by_time : List Message → List Message
  sort_by_time = sort_from []

  unfoldable pub restore_runs : List Message → List RunSnapshot → List Message
  restore_runs messages runs = sort_by_time (restore_all messages runs)
