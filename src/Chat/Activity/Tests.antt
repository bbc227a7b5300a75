-- ===== src/Chat/Activity/Tests.antt =====
-- A run of 75 seconds that has succeeded.
use webbuilder.Base.{
  ℕ, ◌≡◌, refl, String, Bool, true, false, Option, none, some, List, [], ◌∷◌, if◌then◌else◌,
  or_else, ◌==◌,
}
use webbuilder.Chat.Types.{RunStatus, Message, Role, run_finished}
use webbuilder.Chat.Events.{finish}
use webbuilder.Chat.Activity.{label, elapsed, elapsed_text}
use webbuilder.Samples.{run_event}

abbrev building : Message
building = record {
  id = "run:r1";
  role = Role.assistant;
  content = "";
  created_at = "0";
  event_type = none;
  tool_calls = none;
  activity = none;
  run_status = some RunStatus.running;
  finished_at = none;
}

abbrev dates : String → Option ℕ
dates s = if s == "9" then some 75400 else some 0

lost_connection : label false building ≡ "Reconnecting to run"
unfolding label
lost_connection = refl

success : label false (finish (run_event run_finished) building) ≡ "Build complete"
unfolding label finish
success = refl

duration : elapsed dates none (finish (run_event run_finished) building) ≡ some 75
unfolding elapsed finish
duration = refl

duration_text : elapsed_text 75 ≡ "1:15"
unfolding elapsed_text webbuilder.Base.number_text
duration_text = refl
