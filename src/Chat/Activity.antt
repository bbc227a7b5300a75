-- ===== src/Chat/Activity.antt =====
-- What frontend/components/chat/RunActivity.tsx says of a run, with the duration of RunStatus.tsx.
-- `parse_date` is `Date.parse`, in milliseconds from 1970 on, `none` for NaN.
pub mod Ended
mod Tests
use webbuilder.Base.{
  ℕ, ◌-◌, ◌/◌, ◌%◌, String, Bool, true, false, not, ◌&&◌, ◌||◌, Option, none, some, List, [], ◌∷◌,
  filter, if◌then◌else◌, or_else, truthy, last?, ltb, concat, number_text,
}
use webbuilder.Chat.Types.{RunStatus, Message, ActivityItem, ActivityKind}

pub data Icon : Type 0 where
  loader cross clock check : Icon

abbrev pub is_running : Option RunStatus → Bool
is_running (some RunStatus.running) = true
is_running _ = false

abbrev pub is_cancelled : Option RunStatus → Bool
is_cancelled (some RunStatus.cancelled) = true
is_cancelled _ = false

abbrev pub is_failed : Option RunStatus → Bool
is_failed none = false
is_failed (some RunStatus.running) = false
is_failed (some RunStatus.succeeded) = false
is_failed (some RunStatus.cancelled) = false
is_failed (some _) = true

abbrev pub is_stage : ActivityItem → Bool
is_stage item = elim (item.kind) [ ActivityKind.stage ↦ true | _ ↦ false ]

abbrev pub message_of : Option ActivityItem → Option String
message_of none = none
message_of (some item) = item.message

-- `steps.filter((item) => item.kind === "stage").at(-1)?.message`
unfoldable pub latest : Message → Option String
latest m = message_of (last? (filter is_stage (or_else m.activity [])))

abbrev pub label_of : (connected : Bool) → (stage : Option String) → Option RunStatus → String
label_of connected stage none = "Recorded steps"
label_of connected stage (some RunStatus.running) =
    if connected
    then if truthy stage then or_else stage "" else "Working on your app"
    else "Reconnecting to run"
label_of connected stage (some RunStatus.succeeded) = "Build complete"
label_of connected stage (some RunStatus.cancelled) = "Run stopped"
label_of connected stage (some _) = "Run needs attention"

unfoldable pub label : (connected : Bool) → Message → String
label connected m = label_of connected (latest m) m.run_status

unfoldable pub icon : (connected : Bool) → Message → Icon
icon connected m =
    if is_running m.run_status && connected
    then loader
    else if is_failed m.run_status
    then cross
    else if is_running m.run_status || is_cancelled m.run_status
    then clock
    else check

-- `Math.max(0, Math.floor((finish - start) / 1000))`, where both are numbers
abbrev pub seconds_between : (finish start : Option ℕ) → Option ℕ
seconds_between none start = none
seconds_between (some finish) none = none
seconds_between (some finish) (some start) = some ((finish - start) / 1000)

module _ (parse_date : String → Option ℕ) where
  -- `now` is the last time that the timer has read, `none` before it has
  unfoldable pub elapsed : (now : Option ℕ) → Message → Option ℕ
  elapsed now m =
      let finish =
        if truthy m.finished_at
        then parse_date (or_else m.finished_at "")
        else if is_running m.run_status
        then now
        else none in
      seconds_between finish (parse_date m.created_at)

unfoldable pub elapsed_text : ℕ → String
elapsed_text seconds =
    let rest = seconds % 60 in
    concat (number_text (seconds / 60))
      (concat ":" (if ltb rest 10 then concat "0" (number_text rest) else number_text rest))
