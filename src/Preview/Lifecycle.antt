-- ===== src/Preview/Lifecycle.antt =====
-- `usePreviewLifecycle` of frontend/hooks/preview/usePreviewLifecycle.ts as a step function. The
-- refs, the React state and the variables of the effect for the current revision are the fields of
-- `Preview`; `check` is cut at its awaits, and `waiting` says at which one it stands. `posts`
-- counts the calls of `previewService.open`. An effect that was cleaned up does nothing any more,
-- so what it still waits for is forgotten.
pub mod Check
pub mod Invariant
pub mod Startup
mod Tests
use webbuilder.Base.{
  ℕ, ◌+◌, String, Bool, true, false, not, ◌&&◌, ◌||◌, Option, none, some, List, [], ◌∷◌,
  if◌then◌else◌, truthy, or_else, same_text, leb, eqb,
}

abbrev pub startup_timeout_ms : ℕ
startup_timeout_ms = 200000

abbrev pub startup_poll_interval_ms : ℕ
startup_poll_interval_ms = 3000

abbrev pub active_poll_interval_ms : ℕ
active_poll_interval_ms = 60000

-- `PreviewStatus["state"]` of frontend/types/preview.type.ts
pub data State : Type 0 where
  active sleeping opening building : State

pub record PreviewStatus : Type 0 where
  pub state : State
  pub url : Option String
  pub revision_id : Option String

pub data PreviewPhase : Type 0 where
  active sleeping opening building checking error : PreviewPhase

pub data Waiting : Type 0 where
  nothing for_status for_open for_status_after_open : Waiting

pub record Preview : Type 0 where
  pub phase : PreviewPhase
  pub error : Option String
  -- the last argument of `onPreviewOpen`
  pub url : Option String
  -- `entry`
  pub attempted : Bool
  pub waiting_until : ℕ
  pub failure : Option String
  -- `controls`
  pub enabled : Bool
  pub is_building : Bool
  -- `previousRevision`, and the revision of the effect that is mounted
  pub previous_revision : Option String
  pub mounted : Option String
  -- the variables of the effect
  pub checking : Bool
  pub active : Bool
  pub timer : Option ℕ
  pub waiting : Waiting
  pub posts : ℕ

-- `Date.now()` and `document.visibilityState === "visible"` at an event
pub record Env : Type 0 where
  pub now : ℕ
  pub visible : Bool

abbrev pub is_mounted : Option String → Bool
is_mounted none = false
is_mounted (some r) = true

unfoldable pub eligible : Env → Preview → Bool
eligible env p = is_mounted p.mounted && p.enabled && env.visible

unfoldable pub fail : String → Preview → Preview
fail message p = record p {
  failure = some message;
  waiting_until = 0;
  error = some message;
  phase = PreviewPhase.error;
  url = none;
}

abbrev pub phase_of : State → PreviewPhase
phase_of State.active = PreviewPhase.active
phase_of State.sleeping = PreviewPhase.sleeping
phase_of State.opening = PreviewPhase.opening
phase_of State.building = PreviewPhase.building

-- the branch of `observe` for a preview that is starting
unfoldable pub observe_startup : Env → State → Preview → Preview
observe_startup env state p =
    let until = if eqb p.waiting_until 0 then env.now + startup_timeout_ms else p.waiting_until in
    let q = record p { active = false; attempted = true; waiting_until = until } in
    if leb until env.now
    then fail
        "The preview is taking longer than expected. Your saved files are available; try again later."
        q
    else record q { phase = phase_of state; url = none }

unfoldable pub observe_active : PreviewStatus → Preview → Preview
observe_active status p =
    if same_text status.revision_id p.mounted
    then record p {
      active = true;
      attempted = true;
      waiting_until = 0;
      failure = none;
      error = none;
      phase = PreviewPhase.active;
      url = status.url;
    }
    else fail
        "The saved project changed while opening. Reopen the project to view its latest version." p

unfoldable pub observe_rest : Preview → Preview
observe_rest p =
    let q = record p { active = false; url = none } in
    if eqb p.waiting_until 0
    then record q { phase = PreviewPhase.sleeping }
    else fail "Preview could not start. Your saved files are still available." q

unfoldable pub observe : Env → PreviewStatus → Preview → Preview
observe env status p = elim status.state [
  | State.opening ↦ observe_startup env State.opening p
  | State.building ↦ observe_startup env State.building p
  | State.active ↦ if truthy status.url then observe_active status p else observe_rest p
  | State.sleeping ↦ observe_rest p
]
