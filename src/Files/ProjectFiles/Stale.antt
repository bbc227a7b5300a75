-- ===== src/Files/ProjectFiles/Stale.antt =====
-- Answers that come out of order.
use webbuilder.Base.{ℕ, ◌<◌, false, ◌≡◌, refl, ◌∙◌, ap, List, [], ◌∷◌, ◌++◌, All, arith}
use webbuilder.Files.ProjectFiles.{
  ProjectFiles, Listing, Event, load, listed, failed, cleaned_up, on_listed, step, run,
}

-- an answer to a request before request `n`, or a failure of any
abbrev pub IsStale : ℕ → Event → Type 0
IsStale n (listed m listing) = m < n
IsStale n (failed m) = Unit
IsStale n _ = ⊥

step-IsStale :
    (n : ℕ) (event : Event) (p : ProjectFiles)
    → p.request_number ≡ n
    → IsStale n event
    → step event p ≡ p
unfolding step on_listed
step-IsStale n load p e s = absurd s
step-IsStale n (listed m listing) p e s = ground arith
step-IsStale n (failed m) p e s = refl
step-IsStale n cleaned_up p e s = absurd s

run-IsStale :
    (n : ℕ) (events : List Event) (p : ProjectFiles)
    → p.request_number ≡ n
    → All (IsStale n) events
    → run events p ≡ p
unfolding run
run-IsStale n [] p e s = refl
run-IsStale n (event ∷ events) p e (s, ss) =
    let same = step-IsStale n event p e s in
    run-IsStale n events (step event p) (ap (λ (q : ProjectFiles). q.request_number) same ∙ e) ss
    ∙ same

run-append : (xs ys : List Event) (p : ProjectFiles) → run (xs ++ ys) p ≡ run ys (run xs p)
unfolding run
run-append [] ys p = refl
run-append (x ∷ xs) ys p = run-append xs ys (step x p)

listed-newest :
    (p : ProjectFiles) (listing : Listing)
    → p.disposed ≡ false
    → step (listed p.request_number listing) p
      ≡ record p { project_files = listing.files; revision_id = listing.revision_id }
unfolding step on_listed
listed-newest p listing d = ground arith

-- While the effect lasts, the answer to its newest request is the one that is shown, whichever
-- answers to earlier requests and failures come before and after it.
pub run-newest :
    (p : ProjectFiles) (listing : Listing) (before after : List Event)
    → p.disposed ≡ false
    → All (IsStale p.request_number) before
    → All (IsStale p.request_number) after
    → run (before ++ listed p.request_number listing ∷ after) p
      ≡ record p { project_files = listing.files; revision_id = listing.revision_id }
unfolding run
run-newest p listing before after d b a =
    run-append before (listed p.request_number listing ∷ after) p
    ∙ rw (run-IsStale p.request_number before p refl b, listed-newest p listing d)
        (run-IsStale p.request_number after _ refl a)
