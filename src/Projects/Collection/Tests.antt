-- ===== src/Projects/Collection/Tests.antt =====
-- Two projects, one of which is deleted while its chat is open.
use webbuilder.Base.{
  ℕ, String, ◌≡◌, ◌⊎◌, refl, Bool, true, false, List, [], ◌∷◌, ◌++◌, Option, none, some, All,
  if◌then◌else◌, arith, inl, inr,
}
use webbuilder.Base.Exec.{ok}
use webbuilder.Projects.Filters.{
  Project, ProjectSort, ProjectPeriod, Sign, filter_projects, includes, is_shown, sort_projects,
}
use webbuilder.Projects.Collection.{
  ProjectDeletion, retried, Collection, Event, listed, searched, limited, asked, closed, confirmed,
  deleted, completed, queued, narrowed, reset_filters, step, run,
}
use webbuilder.Projects.Collection.View.{visible, status_text}
use webbuilder.Projects.Collection.Deletions.{
  IsGone, IsWithout, IsConfirmed, deleted-IsGone, deletions-step,
}

abbrev project : String → Project
project title = record {
  id = title;
  user_id = 1;
  title = title;
  app_url = none;
  created_at = "1";
  updated_at = none;
}

abbrev loaded : Collection
loaded = record {
  projects = project "shop" ∷ project "blog" ∷ [];
  loading = false;
  error = "";
  query = "cart";
  sort = ProjectSort.recent;
  period = ProjectPeriod.all_time;
  attempt = 0;
  pending_delete = none;
  delete_title = "";
  deleting_id = none;
  delete_error = "";
  deletions = [];
  notices = [];
  route = none;
  opened = 0;
}

abbrev dates : String → Option ℕ
dates s = some 1

abbrev same : String → String
same s = s

abbrev equal : String → String → Sign
equal s t = Sign.zero

abbrev day : List Event
day =
    asked (project "shop")
    ∷ confirmed
    ∷ closed
    ∷ deleted (project "shop") "/chat/shop"
        (ok (record { storage_cleanup = completed; sandbox_cleanup = queued }))
    ∷ []

notice_of_day : (run day loaded).notices ≡ "Project removed; cleanup pending" ∷ []
unfolding run step webbuilder.Projects.Collection.on_deleted
    webbuilder.Projects.Collection.close_dialog webbuilder.Projects.Collection.delete_project
    webbuilder.Projects.Collection.ask_delete
notice_of_day = refl

route_of_day : (run day loaded).route ≡ some "/projects"
unfolding run step webbuilder.Projects.Collection.on_deleted
route_of_day = refl

posts_of_day : (run day loaded).deletions ≡ "shop" ∷ []
unfolding run step webbuilder.Projects.Collection.on_deleted
    webbuilder.Projects.Collection.close_dialog webbuilder.Projects.Collection.delete_project
    webbuilder.Projects.Collection.ask_delete
posts_of_day = refl

line : status_text dates same equal equal 2 loaded ≡ "0 of 2 projects"
unfolding status_text narrowed webbuilder.Base.trim webbuilder.Base.number_text visible
    filter_projects sort_projects is_shown includes
line = refl

abbrev cleaned : ProjectDeletion
cleaned = record { storage_cleanup = completed; sandbox_cleanup = queued }

-- the list is asked for twice more, and the answers come in the wrong order
abbrev afterwards : List Event
afterwards =
    retried
    ∷ retried
    ∷ listed 3 (ok (project "b" ∷ []))
    ∷ listed 1 (ok (project "shop" ∷ []))
    ∷ searched "b"
    ∷ []

deleted-IsGone_example :
    IsGone "shop"
      (run
        (deleted (project "shop") "/projects" (ok cleaned) ∷ afterwards)
        (record loaded { attempt = 2 })).projects
unfolding IsWithout
deleted-IsGone_example =
    deleted-IsGone (project "shop") "/projects" cleaned afterwards (record loaded { attempt = 2 })
      (tt, (tt, (inr (refl, tt), (inl (omega arith), (tt, tt)))))

deletions-step_example :
    ((step confirmed (record loaded { pending_delete = some (project "shop") })).deletions ≡ [])
    ⊎ ((confirmed ≡ confirmed)
        × ((p : Project) × IsConfirmed
              (record loaded { pending_delete = some (project "shop") })
              (step confirmed (record loaded { pending_delete = some (project "shop") }))
              p))
deletions-step_example =
    deletions-step confirmed (record loaded { pending_delete = some (project "shop") })
