-- ===== src/Preview/Lifecycle/Check.antt =====
-- `check`, the effects and `retry` of usePreviewLifecycle.ts, and the step function over them.
use webbuilder.Base.{
  ◌+◌, String, Bool, true, false, not, ◌||◌, Option, none, some, List, [], ◌∷◌, if◌then◌else◌,
  truthy, same_text, eqb,
}
use webbuilder.Preview.Lifecycle.{
  State, PreviewPhase, PreviewStatus, Waiting, nothing, for_status, for_open, for_status_after_open,
  Preview, Env, eligible, fail, observe, startup_timeout_ms, startup_poll_interval_ms,
  active_poll_interval_ms,
}

-- the `finally` block of `check`
unfoldable pub finish_check : Preview → Preview
finish_check p =
    let q = record p { checking = false; waiting = nothing } in
    if truthy p.failure then q else record q {
      timer =
          some
            (if eqb p.waiting_until 0 then active_poll_interval_ms else startup_poll_interval_ms);
    }

-- the outer `catch` block; a transient status failure should not discard a working preview
unfoldable pub check_failed : Preview → Preview
check_failed p = finish_check (
    if p.active
    then p
    else fail
        "Preview is temporarily unavailable. Your saved files are still available. Please retry." p)

-- `check`, up to its first await
unfoldable pub check : Env → Preview → Preview
check env p =
    if p.checking || not (eligible env p) || truthy p.failure
    then p
    else let q = record p { timer = none; checking = true } in
      if p.is_building
      then finish_check
          (observe env (record { state = State.building; url = none; revision_id = none }) q)
      else record q { waiting = for_status }

-- the startup request, after a status that says that the preview sleeps
unfoldable pub start_opening : Env → Preview → Preview
start_opening env p = record p {
  attempted = true;
  waiting_until = env.now + startup_timeout_ms;
  phase = PreviewPhase.opening;
  error = none;
  url = none;
  waiting = for_open;
  posts = p.posts + 1;
}

abbrev pub is_sleeping : State → Bool
is_sleeping State.sleeping = true
is_sleeping _ = false

-- what follows `await status()`; `none` is a request that failed
unfoldable pub on_status : Env → Option PreviewStatus → Preview → Preview
on_status env none p = check_failed p
on_status env (some current) p =
    if not (eligible env p) || p.is_building
    then finish_check p
    else if not (is_sleeping current.state) || p.attempted
    then finish_check (observe env current p)
    else start_opening env p

-- what `previewService.open` returns
pub record Opened : Type 0 where
  pub url : String
  pub revision_id : String

-- what follows the startup request. Another tab may own startup: a failure is followed by a
-- status request.
unfoldable pub on_open : Env → Option Opened → Preview → Preview
on_open env none p = record p { waiting = for_status_after_open }
on_open env (some opened) p = finish_check (
    if p.is_building
    then p
    else observe env
        (record {
          state = State.active;
          url = some opened.url;
          revision_id = some opened.revision_id;
        })
        p)

unfoldable pub on_status_after_open : Env → Option PreviewStatus → Preview → Preview
on_status_after_open env none p = check_failed p
on_status_after_open env (some current) p = finish_check (observe env current p)

-- an answer that nothing waits for belongs to an effect that was cleaned up
unfoldable pub on_status_answer : Waiting → Env → Option PreviewStatus → Preview → Preview
on_status_answer for_status env answer p = on_status env answer p
on_status_answer for_status_after_open env answer p = on_status_after_open env answer p
on_status_answer _ env answer p = p

unfoldable pub on_open_answer : Waiting → Env → Option Opened → Preview → Preview
on_open_answer for_open env answer p = on_open env answer p
on_open_answer _ env answer p = p

-- the effect on `enabled` and `isBuilding`; `checkNow` is set while an effect is mounted
unfoldable pub set_controls : Env → Bool → Bool → Preview → Preview
set_controls env enabled is_building p =
    let q = record p { enabled = enabled; is_building = is_building } in
    check env (
      if is_building || p.is_building
      then record q { attempted = true; failure = none; waiting_until = 0; error = none }
      else q)

-- the cleanup of the effect for the old revision and, for a revision that is there, the new effect
unfoldable pub set_revision : Option String → Preview → Preview
set_revision revision p =
    let old = record p { mounted = none; timer = none; checking = false; waiting = nothing } in
    if truthy revision
    then (let failure = if same_text p.previous_revision revision then p.failure else none in
        let until = if same_text p.previous_revision revision then p.waiting_until else 0 in
        record old {
          mounted = revision;
          previous_revision = revision;
          failure = failure;
          waiting_until = until;
          active = false;
          error = failure;
          phase = if truthy failure then PreviewPhase.error else PreviewPhase.checking;
          timer = some 0;
        })
    else old

unfoldable pub retry : Env → Preview → Preview
retry env p =
    if p.checking || not (eligible env p) || p.is_building
    then p
    else check env (record p {
      attempted = false;
      waiting_until = 0;
      failure = none;
      error = none;
      phase = PreviewPhase.checking;
    })

-- What happens to the hook. `wake` is a timer that fires, or a change of visibility.
pub data Event : Type 0 where
  controls : Bool → Bool → Event
  revision : Option String → Event
  wake : Event
  status_answer : Option PreviewStatus → Event
  open_answer : Option Opened → Event
  retried : Event

unfoldable pub step : Env → Event → Preview → Preview
step env (controls enabled is_building) p = set_controls env enabled is_building p
step env (revision r) p = set_revision r p
step env wake p = check env p
step env (status_answer answer) p = on_status_answer p.waiting env answer p
step env (open_answer answer) p = on_open_answer p.waiting env answer p
step env retried p = retry env p

unfoldable pub run : List (Env × Event) → Preview → Preview
run [] p = p
run ((env, event) ∷ rest) p = run rest (step env event p)
