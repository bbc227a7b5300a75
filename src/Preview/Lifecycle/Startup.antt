-- ===== src/Preview/Lifecycle/Startup.antt =====
-- Starting a preview: how often it is asked for, for how long it is waited, and for which revision
-- it is shown.
use webbuilder.Base.{
  ℕ, ◌+◌, ◌≤◌, ◌<◌, String, ◌≡◌, refl, if_keeps, Bool, true, false, Option, none, some, List, [],
  ◌∷◌, if◌then◌else◌, truthy, same_text-eq, arith, inl, inr, All, ◌⊎◌, leb, eqb,
}
use webbuilder.Preview.Lifecycle.{
  State, PreviewPhase, PreviewStatus, Waiting, nothing, for_status, for_open, for_status_after_open,
  Preview, Env, eligible, fail, observe, observe_startup, observe_active, observe_rest,
  startup_poll_interval_ms,
}
use webbuilder.Preview.Lifecycle.Check.{
  finish_check, check_failed, check, start_opening, on_status, on_open, on_status_after_open,
  on_status_answer, on_open_answer, set_controls, set_revision, Event, controls, revision, wake,
  status_answer, open_answer, retried, step, run, Opened,
}

-- the startup requests made, and the one that is still allowed
abbrev pub budget : Preview → ℕ
budget p = p.posts + (if p.attempted then 0 else 1)

-- No more requests than before, and none that is not paid for.
abbrev Within : ℕ → Preview → Type 0
Within n p = budget p ≤ n

budget-fail : (n : ℕ) (message : String) (p : Preview) → Within n p → Within n (fail message p)
unfolding fail
budget-fail n message p h = h

budget-observe :
    (n : ℕ) (env : Env) (status : PreviewStatus) (p : Preview)
    → Within n p
    → Within n (observe env status p)
unfolding observe observe_startup observe_active observe_rest fail
budget-observe n env status p h = ground arith

budget-finish_check : (n : ℕ) (p : Preview) → Within n p → Within n (finish_check p)
unfolding finish_check
budget-finish_check n p h = ground arith

budget-check_failed : (n : ℕ) (p : Preview) → Within n p → Within n (check_failed p)
unfolding check_failed
budget-check_failed n p h =
    budget-finish_check n _ (if_keeps (Within n) p.active h (budget-fail n _ p h))

budget-check : (n : ℕ) (env : Env) (p : Preview) → Within n p → Within n (check env p)
unfolding check
budget-check n env p h =
    if_keeps (Within n) _ h
      (if_keeps (Within n) p.is_building (budget-finish_check n _ (budget-observe n env _ _ h)) h)

budget-on_status :
    (n : ℕ) (env : Env) (answer : Option PreviewStatus) (p : Preview)
    → Within n p
    → Within n (on_status env answer p)
unfolding on_status start_opening
budget-on_status n env none p h = budget-check_failed n p h
budget-on_status n env (some current) p h = ground (
  arith,
  budget-finish_check n p h,
  budget-finish_check n (observe env current p) (budget-observe n env current p h),
)

budget-on_open :
    (n : ℕ) (env : Env) (answer : Option Opened) (p : Preview)
    → Within n p
    → Within n (on_open env answer p)
unfolding on_open
budget-on_open n env none p h = h
budget-on_open n env (some opened) p h =
    budget-finish_check n _ (if_keeps (Within n) p.is_building h (budget-observe n env _ p h))

budget-on_status_after_open :
    (n : ℕ) (env : Env) (answer : Option PreviewStatus) (p : Preview)
    → Within n p
    → Within n (on_status_after_open env answer p)
unfolding on_status_after_open
budget-on_status_after_open n env none p h = budget-check_failed n p h
budget-on_status_after_open n env (some current) p h =
    budget-finish_check n _ (budget-observe n env current p h)

budget-posts : (n : ℕ) (p : Preview) → Within n p → p.posts + 0 ≤ n
budget-posts n p h = omega (arith, h)

budget-set_controls :
    (n : ℕ) (env : Env) (enabled is_building : Bool) (p : Preview)
    → Within n p
    → Within n (set_controls env enabled is_building p)
unfolding set_controls
budget-set_controls n env enabled is_building p h =
    budget-check n env _ (if_keeps (Within n) _ (budget-posts n p h) h)

budget-set_revision :
    (n : ℕ) (r : Option String) (p : Preview) → Within n p → Within n (set_revision r p)
unfolding set_revision
budget-set_revision n r p h = if_keeps (Within n) (truthy r) h h

-- the user has not asked for another attempt
abbrev pub IsAutomatic : Event → Type 0
IsAutomatic retried = ⊥
IsAutomatic _ = Unit

budget-step :
    (n : ℕ) (env : Env) (event : Event) (p : Preview)
    → IsAutomatic event
    → Within n p
    → Within n (step env event p)
unfolding step on_status_answer on_open_answer
budget-step n env (controls enabled is_building) p a h =
    budget-set_controls n env enabled is_building p h
budget-step n env (revision r) p a h = budget-set_revision n r p h
budget-step n env wake p a h = budget-check n env p h
budget-step n env (status_answer answer) p a h = answered p.waiting
  where
    answered : (w : Waiting) → Within n (on_status_answer w env answer p)
    answered nothing = h
    answered for_status = budget-on_status n env answer p h
    answered for_open = h
    answered for_status_after_open = budget-on_status_after_open n env answer p h
budget-step n env (open_answer answer) p a h = answered p.waiting
  where
    answered : (w : Waiting) → Within n (on_open_answer w env answer p)
    answered nothing = h
    answered for_status = h
    answered for_open = budget-on_open n env answer p h
    answered for_status_after_open = h
budget-step n env retried p a h = absurd a

budget-run :
    (n : ℕ) (events : List (Env × Event)) (p : Preview)
    → All (λ (e : Env × Event). IsAutomatic e.1) events
    → Within n p
    → Within n (run events p)
unfolding run
budget-run n [] p a h = h
budget-run n ((env, event) ∷ rest) p (a, as') h =
    budget-run n rest (step env event p) as' (budget-step n env event p a h)

-- Until the user retries, the hook asks the server at most once to start the preview, and not at
-- all if it has already tried, however revisions, visibility, panels and answers change.
pub posts-run :
    (events : List (Env × Event)) (p : Preview)
    → All (λ (e : Env × Event). IsAutomatic e.1) events
    → (run events p).posts ≤ p.posts + (if p.attempted then 0 else 1)
posts-run events p a = omega (arith, budget-run (budget p) events p a (omega arith))

-- a status that says that the preview is starting
abbrev pub IsStarting : State → Type 0
IsStarting s = (s ≡ State.opening) ⊎ (s ≡ State.building)

on_status-IsStarting :
    (env : Env) (status : PreviewStatus) (p : Preview)
    → IsStarting status.state
    → eligible env p ≡ true
    → p.is_building ≡ false
    → on_status env (some status) p ≡ finish_check (observe_startup env status.state p)
unfolding on_status observe
on_status-IsStarting env status p (inl s) e b = rw (e, b, s) refl
on_status-IsStarting env status p (inr s) e b = rw (e, b, s) refl

observe_startup-before :
    (env : Env) (s : State) (p : Preview)
    → 0 < p.waiting_until
    → env.now < p.waiting_until
    → truthy p.failure ≡ false
    → ((finish_check (observe_startup env s p)).waiting_until ≡ p.waiting_until)
      × ((finish_check (observe_startup env s p)).timer ≡ some startup_poll_interval_ms)
unfolding observe_startup finish_check
observe_startup-before env s p w lt f = ground arith

observe_startup-after :
    (env : Env) (s : State) (p : Preview)
    → 0 < p.waiting_until
    → p.waiting_until ≤ env.now
    → let q = finish_check (observe_startup env s p) in
      (q.phase ≡ PreviewPhase.error)
      × (truthy q.failure ≡ true)
      × (q.timer ≡ p.timer)
      × (q.url ≡ none)
unfolding observe_startup finish_check fail
observe_startup-after env s p w le =
    rw (not_eq p.waiting_until w, leb-of_le p.waiting_until env.now le) (refl, refl, refl, refl)
  where
    not_eq : (n : ℕ) → 0 < n → eqb n 0 ≡ false
    not_eq n h = ground arith

    leb-of_le : (m n : ℕ) → m ≤ n → leb m n ≡ true
    leb-of_le m n h = ground arith

-- While the server reports that the preview is starting, to a hook that is on show, does not build,
-- has not failed and has a deadline, that deadline stands: before it the status is asked for again
-- in three seconds, and from it on the hook has failed, shows no address and sets no timer.
pub on_status-startup :
    (env : Env) (status : PreviewStatus) (p : Preview)
    → IsStarting status.state
    → eligible env p ≡ true
    → p.is_building ≡ false
    → truthy p.failure ≡ false
    → 0 < p.waiting_until
    → let q = on_status env (some status) p in
      (env.now < p.waiting_until
        → (q.waiting_until ≡ p.waiting_until) × (q.timer ≡ some startup_poll_interval_ms))
      × (p.waiting_until ≤ env.now
          → (q.phase ≡ PreviewPhase.error)
            × (truthy q.failure ≡ true)
            × (q.timer ≡ p.timer)
            × (q.url ≡ none))
on_status-startup env status p s e b f w = rw (on_status-IsStarting env status p s e b) (
  λ lt. observe_startup-before env status.state p w lt f,
  observe_startup-after env status.state p w,
)

-- A preview that a status or an opening makes active is the one of the revision on show, and its
-- address is the one that is shown.
pub observe-active :
    (env : Env) (status : PreviewStatus) (p : Preview)
    → (observe env status p).phase ≡ PreviewPhase.active
    → (status.state ≡ State.active)
      × (status.revision_id ≡ p.mounted)
      × ((observe env status p).url ≡ status.url)
unfolding observe observe_startup observe_active observe_rest fail
observe-active env status p h = ground (arith, same_text-eq status.revision_id p.mounted)
