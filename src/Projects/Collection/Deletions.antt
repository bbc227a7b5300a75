-- ===== src/Projects/Collection/Deletions.antt =====
-- What the collection asks the server to delete, and what becomes of a deleted project.
use webbuilder.Base.{
  ℕ, ◌<◌, ◌≤◌, eqb, ◌++◌, ◌∷◌, ◌≡◌, ◌⊎◌, inl, inr, refl, Option, none, some, String, Bool, false,
  not, List, [], filter, if_keeps, is_some, truthy, All, ◌==◌, concat, arith, Bool-cases,
}
use webbuilder.Base.Exec.{ok, err}
use webbuilder.Projects.Filters.{Project}
use webbuilder.Projects.Collection.{
  Collection, ProjectDeletion, on_listed, retry, ask_delete, close_dialog, start_deleting,
  delete_project, on_deleted, reset_filters, Event, listed, retried, searched, sorted, limited,
  reset, asked, closed, confirmed, deleted, step, run,
}

-- the dialog shows this project, no deletion is running, and its deletion is asked for
pub record IsConfirmed (c c' : Collection) (project : Project) : Type 0 where
  pub pending : c.pending_delete ≡ some project
  pub idle : truthy c.deleting_id ≡ false
  pub posted : c'.deletions ≡ c.deletions ++ project.id ∷ []

start_deleting_cases :
    (o : Option Project) (c : Collection)
    → c.pending_delete ≡ o
    → ((start_deleting o c).deletions ≡ c.deletions)
      ⊎ ((project : Project) × IsConfirmed c (start_deleting o c) project)
start_deleting_cases none c e = inl refl
start_deleting_cases (some project) c e = elim (Bool-cases (truthy c.deleting_id)) [
  | inl t ↦ rw t (inl refl)
  | inr f ↦ rw f (inr (project, record { pending = e; idle = f; posted = refl }))
]

-- An event asks the server for no deletion, or it confirms the dialog, and then that of the
-- project in the dialog, while no other is running.
pub deletions-step :
    (event : Event) (c : Collection)
    → ((step event c).deletions ≡ c.deletions)
      ⊎ ((event ≡ confirmed) × ((project : Project) × IsConfirmed c (step event c) project))
unfolding step on_listed retry ask_delete close_dialog delete_project on_deleted reset_filters
deletions-step (listed attempt (ok projects)) c = inl (ground arith)
deletions-step (listed attempt (err message)) c = inl (ground arith)
deletions-step retried c = inl refl
deletions-step (searched query) c = inl refl
deletions-step (sorted sort) c = inl refl
deletions-step (limited period) c = inl refl
deletions-step reset c = inl refl
deletions-step (asked project) c = inl (ground arith)
deletions-step closed c = inl (ground arith)
deletions-step confirmed c = elim (start_deleting_cases c.pending_delete c refl) [
  | inl same ↦ inl same
  | inr posted ↦ inr (refl, posted)
]
deletions-step (deleted project pathname (ok result)) c = inl (ground arith)
deletions-step (deleted project pathname (err message)) c = inl refl

-- no project of the list has the id
abbrev pub IsGone : String → List Project → Type 0
IsGone id projects = All (λ p. (p.id == id) ≡ false) projects

filter-IsGone :
    (p : Project → Bool) (id : String) (projects : List Project)
    → IsGone id projects
    → IsGone id (filter p projects)
filter-IsGone p id [] g = tt
filter-IsGone p id (x ∷ projects) (h, g) =
    if_keeps (IsGone id) (p x) (h, filter-IsGone p id projects g) (filter-IsGone p id projects g)

filter_id-IsGone :
    (id : String) (projects : List Project)
    → IsGone id (filter (λ item. not (item.id == id)) projects)
filter_id-IsGone id [] = tt
filter_id-IsGone id (x ∷ projects) = elim (Bool-cases (x.id == id)) [
  | inl e ↦ rw e (filter_id-IsGone id projects)
  | inr e ↦ rw e (e, filter_id-IsGone id projects)
]

-- An answer with a list is to a request before `attempt`, or the list has no project of the id.
unfoldable pub IsWithout : (id : String) → (attempt : ℕ) → Event → Type 0
IsWithout id attempt (listed n (ok projects)) = (n < attempt) ⊎ IsGone id projects
IsWithout id attempt _ = Unit {0}

-- the list that is shown, or waited for, is at least the one of `attempt`
record IsRidSince (id : String) (attempt : ℕ) (c : Collection) : Type 0 where
  rid : IsGone id c.projects
  since : attempt ≤ c.attempt

stale :
    (n attempt : ℕ) (c : Collection) → n < attempt → attempt ≤ c.attempt → eqb n c.attempt ≡ false
stale n attempt c l k = ground arith

listed-IsRidSince :
    (id : String) (attempt n : ℕ) (projects : List Project) (c : Collection)
    → (n < attempt) ⊎ IsGone id projects
    → IsRidSince id attempt c
    → IsRidSince id attempt (on_listed n (ok projects) c)
unfolding on_listed
listed-IsRidSince id attempt n projects c (inl l) h = rw (stale n attempt c l h.since) h
listed-IsRidSince id attempt n projects c (inr g) h =
    if_keeps (IsRidSince id attempt) (eqb n c.attempt) (record { rid = g; since = h.since }) h

step-IsRidSince :
    (id : String) (attempt : ℕ) (event : Event) (c : Collection)
    → IsWithout id attempt event
    → IsRidSince id attempt c
    → IsRidSince id attempt (step event c)
unfolding step IsWithout retry ask_delete close_dialog delete_project on_deleted reset_filters
step-IsRidSince id attempt (listed n (ok projects)) c u h =
    listed-IsRidSince id attempt n projects c u h
step-IsRidSince id attempt (listed n (err message)) c u h =
    unfold on_listed in
    if_keeps (IsRidSince id attempt) (eqb n c.attempt) (record { rid = h.rid; since = h.since }) h
step-IsRidSince id attempt retried c u h = record { rid = h.rid; since = omega (arith, h.since) }
step-IsRidSince id attempt (searched query) c u h = record { rid = h.rid; since = h.since }
step-IsRidSince id attempt (sorted sort) c u h = record { rid = h.rid; since = h.since }
step-IsRidSince id attempt (limited period) c u h = record { rid = h.rid; since = h.since }
step-IsRidSince id attempt reset c u h = record { rid = h.rid; since = h.since }
step-IsRidSince id attempt (asked project) c u h =
    if_keeps (IsRidSince id attempt) (is_some c.deleting_id) h
      (record { rid = h.rid; since = h.since })
step-IsRidSince id attempt closed c u h =
    if_keeps (IsRidSince id attempt) (is_some c.deleting_id) h
      (record { rid = h.rid; since = h.since })
step-IsRidSince id attempt confirmed c u h =
    elim (c.pending_delete) as (λ o. IsRidSince id attempt (start_deleting o c)) [
      | none ↦ h
      | some project ↦
          if_keeps (IsRidSince id attempt) (truthy c.deleting_id) h
            (record { rid = h.rid; since = h.since })
    ]
step-IsRidSince id attempt (deleted project pathname (err message)) c u h = record {
  rid = h.rid;
  since = h.since;
}
step-IsRidSince id attempt (deleted project pathname (ok result)) c u h =
    let g = filter-IsGone _ id c.projects h.rid in
    if_keeps (IsRidSince id attempt) (pathname == concat "/chat/" project.id)
      (record { rid = g; since = h.since }) (record { rid = g; since = h.since })

run-IsRidSince :
    (id : String) (attempt : ℕ) (events : List Event) (c : Collection)
    → All (IsWithout id attempt) events
    → IsRidSince id attempt c
    → IsRidSince id attempt (run events c)
unfolding run
run-IsRidSince id attempt [] c u h = h
run-IsRidSince id attempt (event ∷ events) c (u, us) h =
    run-IsRidSince id attempt events (step event c) us (step-IsRidSince id attempt event c u h)

deleted-IsRidSince :
    (project : Project) (pathname : String) (result : ProjectDeletion) (c : Collection)
    → IsRidSince project.id c.attempt (on_deleted project pathname (ok result) c)
unfolding on_deleted
deleted-IsRidSince project pathname result c =
    let g = filter_id-IsGone project.id c.projects in
    let kept : c.attempt ≤ c.attempt = omega arith in
    if_keeps (IsRidSince project.id c.attempt) (pathname == concat "/chat/" project.id)
      (record { rid = g; since = kept }) (record { rid = g; since = kept })

-- When the server has deleted a project, no project of its id is in the collection any more,
-- whatever follows, asking for the list again included. The answers to the request that was the
-- newest at the deletion, and to later ones, are taken not to list the project; an answer to an
-- older request may list it.
pub deleted-IsGone :
    (project : Project) (pathname : String) (result : ProjectDeletion) (events : List Event)
    (c : Collection)
    → All (IsWithout project.id c.attempt) events
    → IsGone project.id (run (deleted project pathname (ok result) ∷ events) c).projects
unfolding run step
deleted-IsGone project pathname result events c u =
    (run-IsRidSince project.id c.attempt events _ u
      (deleted-IsRidSince project pathname result c)).rid
