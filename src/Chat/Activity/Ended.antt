-- ===== src/Chat/Activity/Ended.antt =====
-- What is shown of a run that has ended.
use webbuilder.Base.{
  ℕ, String, Bool, true, false, ◌≡◌, ◌≢◌, refl, Option, none, some, if◌then◌else◌, or_else, arith,
}
use webbuilder.Chat.Types.{RunStatus, Message, RunEvent, run_finished}
use webbuilder.Chat.Events.{finish}
use webbuilder.Chat.Activity.{
  loader, cross, clock, check, is_running, is_cancelled, is_failed, label, label_of, icon, elapsed,
  latest,
}

-- Neither the connection nor the clock changes what is shown, and nothing turns.
pub record IsStill (parse_date : String → Option ℕ) (m : Message) : Type 0 where
  pub same_label : label true m ≡ label false m
  pub same_icon : icon true m ≡ icon false m
  pub no_loader : icon true m ≢ loader
  pub same_time : (now : Option ℕ) → elapsed parse_date now m ≡ elapsed parse_date none m

label_still :
    (stage : Option String) (status : Option RunStatus)
    → is_running status ≡ false
    → label_of true stage status ≡ label_of false stage status
label_still stage none r = refl
label_still stage (some RunStatus.running) r = absurd (ground (arith, r))
label_still stage (some RunStatus.succeeded) r = refl
label_still stage (some RunStatus.failed) r = refl
label_still stage (some RunStatus.cancelled) r = refl
label_still stage (some RunStatus.timed_out) r = refl
label_still stage (some RunStatus.interrupted) r = refl

no_loader_of :
    (failed waits : Bool) → (if failed then cross else if waits then clock else check) ≢ loader
no_loader_of true waits e = ground (arith, e)
no_loader_of false true e = ground (arith, e)
no_loader_of false false e = ground (arith, e)

IsStill-of :
    (parse_date : String → Option ℕ) (m : Message)
    → is_running m.run_status ≡ false
    → IsStill parse_date m
unfolding label icon elapsed
IsStill-of parse_date m r = record {
  same_label = label_still (latest m) m.run_status r;
  same_icon = rw r refl;
  no_loader = rw r (no_loader_of (is_failed m.run_status) (is_cancelled m.run_status));
  same_time = λ now. rw r refl;
}

-- When an event has finished a run, with a status that is not `running`, what is shown of it
-- depends neither on the connection nor on the clock any more, and no loader turns.
pub finish-IsStill :
    (parse_date : String → Option ℕ) (event : RunEvent) (m : Message)
    → event.e ≡ run_finished
    → is_running (some (or_else event.status RunStatus.interrupted)) ≡ false
    → IsStill parse_date (finish event m)
unfolding finish
finish-IsStill parse_date event m f r = IsStill-of parse_date (finish event m) (rw f r)
