-- ===== src/Files/ProjectFiles.antt =====
-- `useProjectFiles` of frontend/hooks/files/useProjectFiles.ts: one effect of the hook as a step
-- function. A request is known by its number, and its answer is an event.
pub mod Stale
mod Tests
use webbuilder.Base.{
  ℕ, ◌+◌, String, Bool, true, false, not, ◌&&◌, Option, none, some, List, [], ◌∷◌, if◌then◌else◌,
  eqb,
}

pub record ProjectFiles : Type 0 where
  pub disposed : Bool
  pub request_number : ℕ
  pub project_files : List String
  pub revision_id : Option String

-- what `fileService.list` returns
pub record Listing : Type 0 where
  pub files : List String
  pub revision_id : Option String

-- `load` is the first call of `loadFiles` or one of the interval's
pub data Event : Type 0 where
  load : Event
  listed : ℕ → Listing → Event
  failed : ℕ → Event
  cleaned_up : Event

-- the interval is cleared on the cleanup, so nothing is loaded after it
unfoldable pub load_files : ProjectFiles → ProjectFiles
load_files p = if p.disposed then p else record p { request_number = p.request_number + 1 }

unfoldable pub on_listed : ℕ → Listing → ProjectFiles → ProjectFiles
on_listed request listing p =
    if not p.disposed && eqb request p.request_number
    then record p { project_files = listing.files; revision_id = listing.revision_id }
    else p

unfoldable pub step : Event → ProjectFiles → ProjectFiles
step load p = load_files p
step (listed request listing) p = on_listed request listing p
step (failed request) p = p
step cleaned_up p = record p { disposed = true }

unfoldable pub run : List Event → ProjectFiles → ProjectFiles
run [] p = p
run (event ∷ events) p = run events (step event p)
