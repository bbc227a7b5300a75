-- ===== src/Chat/Tests.antt =====
-- Runs of the chat's definitions on small inputs, and the theorems at inputs that meet their
-- conditions.
use webbuilder.Base.{
  ℕ, String, ◌≡◌, ◌≢◌, refl, true, false, Option, none, some, List, [], ◌∷◌, ◌++◌, length, arith,
  eq_iff, find, or_else, ◌==◌,
}
use webbuilder.Chat.Types.{
  ToolStatus, succeeded, Role, Message, EventName, RunEvent, RunSnapshot, run_started, tool_started,
  tool_completed, run_finished,
}
use webbuilder.Chat.Events.{
  apply_run_event, ignored, activity_seen, store, updated, finish, record_event, message_for,
  seen_in, activity_id, tool_index, replace, put_call, call_of,
}
use webbuilder.Chat.Events.Frame.{others, others-apply_run_event}
use webbuilder.Chat.Events.Replay.{apply_run_event_idempotent}
use webbuilder.Chat.Events.Outcome.{run_message, IsSettled, apply_run_event_finishes}
use webbuilder.Chat.Restore.{
  restore_run, restore_runs, restore_all, apply_events, needs_end, sort_by_time, forget_time,
}
use webbuilder.Chat.Restore.Sorted.{IsChronological, restore_runs-IsChronological}
use webbuilder.Chat.Restore.Terminal.{restore_run_ends}
use webbuilder.Chat.Consolidate.{
  consolidate_messages, consolidate_from, consolidate_one, close_group, is_wrapper, is_grouped,
}
use webbuilder.Chat.Consolidate.Laws.{consolidate_messages_idempotent}
use webbuilder.Chat.Handler.{Chat, Incoming, history, on_event}
use webbuilder.Chat.Handler.Live.{IsLive, handle_all, on_event-run_finished}
use webbuilder.Chat.Handler.Snapshot.{all_events, receive, messages-receive}

abbrev event : EventName → String → String → Option String → RunEvent
event e event_id time call_id = record {
  e = e;
  run_id = "r1";
  event_id = event_id;
  created_at = time;
  name = some "write_files";
  call_id = call_id;
  ok = some true;
  status = some succeeded;
  message = some "Working";
  output = none;
  details = none;
  duration_ms = none;
  url = none;
  checks = none;
}

abbrev started : RunEvent
started = event run_started "r1:1" "1" none

abbrev call_start : RunEvent
call_start = event tool_started "r1:2" "2" (some "c1")

abbrev call_done : RunEvent
call_done = event tool_completed "r1:3" "3" (some "c1")

abbrev finished : RunEvent
finished = event run_finished "r1:4" "4" none

abbrev run : RunSnapshot
run = record {
  id = "r1";
  created_at = some "1";
  status = succeeded;
  reason = none;
  events = started ∷ call_start ∷ [];
}

abbrev question : Message
question = record {
  id = "m1";
  role = Role.user;
  content = "Build it";
  created_at = "0";
  event_type = none;
  tool_calls = none;
  activity = none;
  run_status = none;
  finished_at = none;
}

abbrev empty_chat : Chat
empty_chat = record {
  terminal_runs = [];
  is_building = false;
  run_id = none;
  messages = question ∷ [];
  app_url = none;
  error = none;
}

-- a clock that reads one digit
abbrev read_digit : String → Option ℕ
read_digit s = elim (find (λ (p : String × ℕ). p.0 == s) (("0", 0) ∷ ("1", 1) ∷ ("2", 2) ∷ [])) [
  | none ↦ none
  | some p ↦ some p.1
]

r1_named : started.run_id ≢ ""
r1_named = ground (arith, eq_iff "r1" "")

abbrev statuses : List Message → List ToolStatus
statuses ms = elim (run_message "r1" ms) [
  | none ↦ []
  | some m ↦ elim (or_else m.tool_calls []) [ [] ↦ [] | c ∷ _ ↦ c.status ∷ [] ]
]

one_call :
    statuses (apply_events (question ∷ []) (started ∷ call_start ∷ call_done ∷ []))
    ≡ ToolStatus.success ∷ []
unfolding apply_events apply_run_event ignored activity_seen store updated finish record_event
    message_for seen_in activity_id tool_index replace put_call call_of
one_call = refl

apply_run_event_idempotent_example :
    apply_run_event (apply_run_event (question ∷ []) call_done) call_done
    ≡ apply_run_event (question ∷ []) call_done
apply_run_event_idempotent_example = apply_run_event_idempotent (question ∷ []) call_done

others-apply_run_event_example :
    others "run:r1" (apply_run_event (question ∷ []) started) ≡ question ∷ []
others-apply_run_event_example = others-apply_run_event (question ∷ []) started

apply_run_event_finishes_example :
    (m : Message) × (run_message "r1" (apply_run_event (question ∷ []) finished) ≡ some m)
    × (m.run_status ≡ some succeeded)
    × (m.finished_at ≡ some "4")
    × IsSettled m.tool_calls
apply_run_event_finishes_example = apply_run_event_finishes (question ∷ []) finished r1_named refl

restore_run_ends_example :
    (m : Message) × (run_message "r1" (restore_run (question ∷ []) run) ≡ some m)
    × (m.run_status ≡ some succeeded)
    × (m.finished_at ≡ none)
    × IsSettled m.tool_calls
unfolding needs_end
restore_run_ends_example = restore_run_ends (question ∷ []) run r1_named refl

abbrev now : Message
now = record question { created_at = "1" }

restore_runs-IsChronological_example :
    IsChronological read_digit (restore_runs read_digit (now ∷ question ∷ []) [])
unfolding restore_all
restore_runs-IsChronological_example =
    restore_runs-IsChronological read_digit (now ∷ question ∷ []) [] ((1, refl), ((0, refl), tt))

-- another run that ends, and a history that knows neither
abbrev meanwhile : List Incoming
meanwhile =
    Incoming.event (record finished { run_id = "r2" })
    ∷ history (record { runs = some []; messages = none; app_url = none })
    ∷ []

on_event-run_finished_example :
    let q = handle_all read_digit meanwhile (on_event empty_chat finished) in
    on_event q call_start ≡ q
on_event-run_finished_example =
    on_event-run_finished read_digit empty_chat finished call_start meanwhile refl refl

empty_chat-IsLive : IsLive empty_chat
empty_chat-IsLive = record { building = λ r p. cc; open_run = λ r p. cc }

-- the snapshot of `run`, and a late event of it
messages-receive_example :
    restore_runs read_digit (question ∷ []) (run ∷ [])
    ≡ sort_by_time read_digit
        (forget_time "r1" (receive empty_chat (all_events run ++ call_done ∷ [])).messages)
unfolding needs_end
messages-receive_example =
    messages-receive read_digit empty_chat run (call_done ∷ []) refl (refl, refl, refl) (refl, tt)
      (λ p. absurd (ground (arith, p)))

abbrev answer : String → Message
answer text = record question {
  id = text;
  role = Role.assistant;
  content = text;
  event_type = some "tool_completed";
  tool_calls = some [];
}

abbrev talk : List Message
talk = question ∷ answer "a" ∷ answer "b" ∷ []

two_cards : length (consolidate_messages talk) ≡ 2
unfolding consolidate_messages consolidate_from consolidate_one close_group is_wrapper is_grouped
two_cards = refl

consolidate_messages_idempotent_example :
    consolidate_messages (consolidate_messages talk) ≡ consolidate_messages talk
consolidate_messages_idempotent_example = consolidate_messages_idempotent talk
