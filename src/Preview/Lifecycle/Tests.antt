-- ===== src/Preview/Lifecycle/Tests.antt =====
-- A preview of one revision, and runs of the hook.
use webbuilder.Base.{
  ℕ, ◌≤◌, ◌<◌, ◌≡◌, refl, true, false, none, some, List, [], ◌∷◌, truthy, inl, arith,
}
use webbuilder.Preview.Lifecycle.{
  State, PreviewPhase, PreviewStatus, Waiting, Preview, Env, eligible, observe, observe_active,
}
use webbuilder.Preview.Lifecycle.Check.{
  wake, status_answer, open_answer, step, run, Opened, check, on_status, Event, on_status_answer,
  on_open_answer, start_opening, on_open, finish_check, check_failed,
}
use webbuilder.Preview.Lifecycle.Invariant.{IsConsistent, run-IsConsistent}
use webbuilder.Preview.Lifecycle.Startup.{posts-run, on_status-startup}

abbrev start : Preview
start = record {
  phase = PreviewPhase.checking;
  error = none;
  url = none;
  attempted = false;
  waiting_until = 0;
  failure = none;
  enabled = true;
  is_building = false;
  previous_revision = none;
  mounted = some "v1";
  checking = false;
  active = false;
  timer = some 0;
  waiting = Waiting.nothing;
  posts = 0;
}

abbrev at : ℕ → Env
at n = record { now = n; visible = true }

abbrev asleep : PreviewStatus
asleep = record { state = State.sleeping; url = none; revision_id = some "v1" }

abbrev up : PreviewStatus
up = record { state = State.active; url = some "https://p"; revision_id = some "v1" }

abbrev opened : Opened
opened = record { url = "https://p"; revision_id = "v1" }

abbrev day : List (Env × Event)
day =
    (at 1, wake)
    ∷ (at 2, status_answer (some asleep))
    ∷ (at 3, open_answer (some opened))
    ∷ (at 9, wake)
    ∷ (at 10, status_answer none)
    ∷ []

day_opens : (run day start).phase ≡ PreviewPhase.active
unfolding run step on_status_answer check on_open_answer eligible on_status start_opening on_open
    finish_check observe observe_active check_failed
day_opens = refl

day_shows : (run day start).url ≡ some "https://p"
unfolding run step on_status_answer check on_open_answer eligible on_status start_opening on_open
    finish_check observe observe_active check_failed
day_shows = refl

start-IsConsistent : IsConsistent start
start-IsConsistent = record { hidden = λ _. refl; failed = λ _. refl; shown = λ e. cc }

run-IsConsistent_example : IsConsistent (run day start)
run-IsConsistent_example = run-IsConsistent day start start-IsConsistent

posts-run_example : (run day start).posts ≤ 1
posts-run_example = posts-run day start (tt, (tt, (tt, (tt, (tt, tt)))))

abbrev late : Preview
late = record start { waiting_until = 50 }

abbrev starting : PreviewStatus
starting = record up { state = State.opening }

on_status-startup_example :
    let q = on_status (at 40) (some starting) late in
    (40 < 50 → (q.waiting_until ≡ 50) × (q.timer ≡ some 3000))
    × (50 ≤ 40
        → (q.phase ≡ PreviewPhase.error)
          × (truthy q.failure ≡ true)
          × (q.timer ≡ some 0)
          × (q.url ≡ none))
unfolding eligible
on_status-startup_example =
    on_status-startup (at 40) starting late (inl refl) refl refl refl (omega arith)
