-- ===== src/Preview/Lifecycle/Invariant.antt =====
-- What the hook shows, in every state that its events can reach.
use webbuilder.Base.{
  String, ◌≡◌, refl, sym, ◌∙◌, if_keeps, Bool, true, false, Option, none, some, List, [], ◌∷◌,
  truthy, arith,
}
use webbuilder.Preview.Lifecycle.{
  PreviewPhase, PreviewStatus, Waiting, nothing, for_status, for_open, for_status_after_open,
  Preview, Env, fail, observe, observe_startup, observe_active, observe_rest,
}
use webbuilder.Preview.Lifecycle.Check.{
  finish_check, check_failed, check, start_opening, on_status, on_open, on_status_after_open,
  on_status_answer, on_open_answer, set_controls, set_revision, retry, Event, controls, revision,
  wake, status_answer, open_answer, retried, step, run, Opened,
}

-- the phases in which a preview may be on show
abbrev pub may_show : PreviewPhase → Bool
may_show PreviewPhase.active = true
may_show PreviewPhase.checking = true
may_show _ = false

-- No address is shown while the preview sleeps, starts or has failed, and an active preview has
-- one.
pub record IsConsistent (p : Preview) : Type 0 where
  pub hidden : may_show p.phase ≡ false → p.url ≡ none
  pub failed : truthy p.failure ≡ true → p.url ≡ none
  pub shown : p.phase ≡ PreviewPhase.active → truthy p.url ≡ true

fail-IsConsistent : (message : String) (p : Preview) → IsConsistent (fail message p)
unfolding fail
fail-IsConsistent message p = record { hidden = λ _. refl; failed = λ _. refl; shown = λ e. cc }

observe-IsConsistent :
    (env : Env) (status : PreviewStatus) (p : Preview) → IsConsistent (observe env status p)
unfolding observe observe_startup observe_active observe_rest fail
observe-IsConsistent env status p = record {
  hidden = λ h. ground arith;
  failed = λ h. ground arith;
  shown = λ h. ground arith;
}

finish_check-IsConsistent : (p : Preview) → IsConsistent p → IsConsistent (finish_check p)
unfolding finish_check
finish_check-IsConsistent p h = record {
  hidden = λ e. ground arith;
  failed = λ e. ground arith;
  shown = λ e. ground arith;
}

check_failed-IsConsistent : (p : Preview) → IsConsistent p → IsConsistent (check_failed p)
unfolding check_failed
check_failed-IsConsistent p h =
    finish_check-IsConsistent _ (if_keeps IsConsistent p.active h (fail-IsConsistent _ p))

-- A change of other fields than the four that the invariant reads.
same-IsConsistent :
    (p q : Preview)
    → q.phase ≡ p.phase
    → q.failure ≡ p.failure
    → q.url ≡ p.url
    → IsConsistent p
    → IsConsistent q
same-IsConsistent p q a b c h = record {
  hidden = λ e. c ∙ h.hidden (rw a at e);
  failed = λ e. c ∙ h.failed (rw b at e);
  shown = λ e. rw c (h.shown (sym a ∙ e));
}

-- Without a failure the invariant is about the phase alone.
unfailed-IsConsistent :
    (p q : Preview)
    → truthy q.failure ≡ false
    → q.phase ≡ p.phase
    → q.url ≡ p.url
    → IsConsistent p
    → IsConsistent q
unfailed-IsConsistent p q f a c h = record {
  hidden = λ e. c ∙ h.hidden (rw a at e);
  failed = λ e. cc;
  shown = λ e. rw c (h.shown (sym a ∙ e));
}

check-IsConsistent : (env : Env) (p : Preview) → IsConsistent p → IsConsistent (check env p)
unfolding check
check-IsConsistent env p h = if_keeps IsConsistent _ h (
    if_keeps IsConsistent p.is_building (finish_check-IsConsistent _ (observe-IsConsistent env _ _))
      (same-IsConsistent p _ refl refl refl h))

start_opening-IsConsistent : (env : Env) (p : Preview) → IsConsistent (start_opening env p)
unfolding start_opening
start_opening-IsConsistent env p = record {
  hidden = λ _. refl;
  failed = λ _. refl;
  shown = λ e. cc;
}

on_status-IsConsistent :
    (env : Env) (answer : Option PreviewStatus) (p : Preview)
    → IsConsistent p
    → IsConsistent (on_status env answer p)
unfolding on_status
on_status-IsConsistent env none p h = check_failed-IsConsistent p h
on_status-IsConsistent env (some current) p h =
    if_keeps IsConsistent _ (finish_check-IsConsistent p h) (
      if_keeps IsConsistent _ (finish_check-IsConsistent _ (observe-IsConsistent env current p))
        (start_opening-IsConsistent env p))

on_open-IsConsistent :
    (env : Env) (answer : Option Opened) (p : Preview)
    → IsConsistent p
    → IsConsistent (on_open env answer p)
unfolding on_open
on_open-IsConsistent env none p h = same-IsConsistent p _ refl refl refl h
on_open-IsConsistent env (some opened) p h =
    finish_check-IsConsistent _
      (if_keeps IsConsistent p.is_building h (observe-IsConsistent env _ p))

on_status_after_open-IsConsistent :
    (env : Env) (answer : Option PreviewStatus) (p : Preview)
    → IsConsistent p
    → IsConsistent (on_status_after_open env answer p)
unfolding on_status_after_open
on_status_after_open-IsConsistent env none p h = check_failed-IsConsistent p h
on_status_after_open-IsConsistent env (some current) p h =
    finish_check-IsConsistent _ (observe-IsConsistent env current p)

set_controls-IsConsistent :
    (env : Env) (enabled is_building : Bool) (p : Preview)
    → IsConsistent p
    → IsConsistent (set_controls env enabled is_building p)
unfolding set_controls
set_controls-IsConsistent env enabled is_building p h = check-IsConsistent env _ (
    if_keeps IsConsistent _ (unfailed-IsConsistent p _ refl refl refl h)
      (same-IsConsistent p _ refl refl refl h))

set_revision-IsConsistent :
    (r : Option String) (p : Preview) → IsConsistent p → IsConsistent (set_revision r p)
unfolding set_revision
set_revision-IsConsistent r p h =
    if_keeps IsConsistent (truthy r)
      (record {
        hidden = λ e. ground (arith, h.failed);
        failed = λ e. ground (arith, h.failed);
        shown = λ e. ground arith;
      })
      (same-IsConsistent p _ refl refl refl h)

retry-IsConsistent : (env : Env) (p : Preview) → IsConsistent p → IsConsistent (retry env p)
unfolding retry
retry-IsConsistent env p h =
    if_keeps IsConsistent _ h
      (check-IsConsistent env _ (record { hidden = λ e. cc; failed = λ e. cc; shown = λ e. cc }))

step-IsConsistent :
    (env : Env) (event : Event) (p : Preview) → IsConsistent p → IsConsistent (step env event p)
unfolding step on_status_answer on_open_answer
step-IsConsistent env (controls enabled is_building) p h =
    set_controls-IsConsistent env enabled is_building p h
step-IsConsistent env (revision r) p h = set_revision-IsConsistent r p h
step-IsConsistent env wake p h = check-IsConsistent env p h
step-IsConsistent env (status_answer answer) p h = answered p.waiting
  where
    answered : (w : Waiting) → IsConsistent (on_status_answer w env answer p)
    answered nothing = h
    answered for_status = on_status-IsConsistent env answer p h
    answered for_open = h
    answered for_status_after_open = on_status_after_open-IsConsistent env answer p h
step-IsConsistent env (open_answer answer) p h = answered p.waiting
  where
    answered : (w : Waiting) → IsConsistent (on_open_answer w env answer p)
    answered nothing = h
    answered for_status = h
    answered for_open = on_open-IsConsistent env answer p h
    answered for_status_after_open = h
step-IsConsistent env retried p h = retry-IsConsistent env p h

-- From a consistent state, whatever happens, and in whatever order, the hook never shows an address
-- while the preview sleeps, starts or has failed, and shows one whenever its phase is active.
pub run-IsConsistent :
    (events : List (Env × Event)) (p : Preview) → IsConsistent p → IsConsistent (run events p)
unfolding run
run-IsConsistent [] p h = h
run-IsConsistent ((env, event) ∷ rest) p h =
    run-IsConsistent rest (step env event p) (step-IsConsistent env event p h)
