-- ===== src/Projects/Collection.antt =====
-- `useProjectCollection` of frontend/hooks/projects/useProjectCollection.ts, with what
-- frontend/components/projects/ProjectCollection.tsx and ProjectDeleteDialog.tsx do with its setters,
-- as a step function. A deletion that is asked of the server goes into `deletions`, a toast into
-- `notices`. An answer carries what its handler has captured. The spotlight, the motion of the
-- dialog and the focus are left out.
pub mod View
pub mod Filtered
pub mod Deletions
mod Tests
use webbuilder.Base.{
  ℕ, suc, ◌+◌, String, Bool, true, false, not, ◌&&◌, ◌||◌, Option, none, some, List, [], ◌∷◌, ◌++◌,
  if◌then◌else◌, is_some, truthy, is_empty, trim, filter, concat, ◌==◌, eqb,
}
use webbuilder.Base.Exec.{Result, ok, err}
use webbuilder.Projects.Filters.{Project, ProjectSort, ProjectPeriod, filter_projects}

pub record Collection : Type 0 where
  pub projects : List Project
  pub loading : Bool
  pub error : String
  pub query : String
  pub sort : ProjectSort
  pub period : ProjectPeriod
  pub attempt : ℕ
  pub pending_delete : Option Project
  pub delete_title : String
  pub deleting_id : Option String
  pub delete_error : String
  pub deletions : List String
  pub notices : List String
  pub route : Option String
  -- how often `onOpen` was called
  pub opened : ℕ

-- frontend/services/service.projects.ts
pub data Cleanup : Type 0 where
  completed queued : Cleanup

pub record ProjectDeletion : Type 0 where
  pub storage_cleanup : Cleanup
  pub sandbox_cleanup : Cleanup

abbrev pub is_queued : Cleanup → Bool
is_queued completed = false
is_queued queued = true

-- the answer to the list that the effect of an attempt has asked for
unfoldable pub on_listed : (attempt : ℕ) → Result (List Project) → Collection → Collection
on_listed attempt (ok projects) c =
    if eqb attempt c.attempt then record c { projects = projects; loading = false } else c
on_listed attempt (err message) c =
    if eqb attempt c.attempt
    then record c { error = "Could not load your projects. Please try again."; loading = false }
    else c

-- "Try again"
unfoldable pub retry : Collection → Collection
retry c = record c { loading = true; error = ""; attempt = c.attempt + 1 }

-- the button of a project, which is disabled while one is deleted
unfoldable pub ask_delete : Project → Collection → Collection
ask_delete project c =
    if is_some c.deleting_id
    then c
    else record c { delete_error = ""; delete_title = project.title; pending_delete = some project }

-- the dialog's `onOpenChange`
unfoldable pub close_dialog : Collection → Collection
close_dialog c = if is_some c.deleting_id then c else record c { pending_delete = none }

-- `deleteProject`, up to its await
abbrev pub start_deleting : Option Project → Collection → Collection
start_deleting none c = c
start_deleting (some project) c = if truthy c.deleting_id then c else record c {
  deleting_id = some project.id;
  delete_error = "";
  deletions = c.deletions ++ project.id ∷ [];
}

unfoldable pub delete_project : Collection → Collection
delete_project c = start_deleting c.pending_delete c

-- what follows the await, for the project and the path that were captured
unfoldable pub on_deleted :
    (project : Project) (pathname : String) → Result ProjectDeletion → Collection → Collection
on_deleted project pathname (err message) c = record c {
  delete_error = message;
  deleting_id = none;
}
on_deleted project pathname (ok result) c =
    let cleanup_pending = is_queued result.storage_cleanup || is_queued result.sandbox_cleanup in
    let q = record c {
      projects = filter (λ item. not (item.id == project.id)) c.projects;
      pending_delete = none;
      notices =
          c.notices
          ++ (if cleanup_pending then "Project removed; cleanup pending" else "Project deleted")
            ∷ [];
      deleting_id = none;
    } in
    if pathname == concat "/chat/" project.id
    then record q { opened = c.opened + 1; route = some "/projects" }
    else q

unfoldable pub reset_filters : Collection → Collection
reset_filters c = record c {
  query = "";
  period = ProjectPeriod.all_time;
  sort = ProjectSort.recent;
}

abbrev pub is_all_time : ProjectPeriod → Bool
is_all_time ProjectPeriod.all_time = true
is_all_time _ = false

abbrev pub is_recent : ProjectSort → Bool
is_recent ProjectSort.recent = true
is_recent _ = false

unfoldable pub narrowed : Collection → Bool
narrowed c = not (is_empty (trim c.query)) || not (is_all_time c.period)

unfoldable pub changed : Collection → Bool
changed c = narrowed c || not (is_recent c.sort)

pub data Event : Type 0 where
  listed : (attempt : ℕ) → Result (List Project) → Event
  retried : Event
  searched : String → Event
  sorted : ProjectSort → Event
  limited : ProjectPeriod → Event
  reset : Event
  asked : Project → Event
  closed : Event
  confirmed : Event
  deleted : (project : Project) (pathname : String) → Result ProjectDeletion → Event

unfoldable pub step : Event → Collection → Collection
step (listed attempt answer) c = on_listed attempt answer c
step retried c = retry c
step (searched query) c = record c { query = query }
step (sorted sort) c = record c { sort = sort }
step (limited period) c = record c { period = period }
step reset c = reset_filters c
step (asked project) c = ask_delete project c
step closed c = close_dialog c
step confirmed c = delete_project c
step (deleted project pathname answer) c = on_deleted project pathname answer c

unfoldable pub run : List Event → Collection → Collection
run [] c = c
run (event ∷ events) c = run events (step event c)
