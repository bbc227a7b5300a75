-- ===== src/Files/ProjectFiles/Tests.antt =====
-- Three requests whose answers come in the wrong order.
use webbuilder.Base.{◌≡◌, refl, false, some, none, [], ◌∷◌, ◌++◌, arith}
use webbuilder.Files.ProjectFiles.{ProjectFiles, Listing, listed, failed, run}
use webbuilder.Files.ProjectFiles.Stale.{run-newest}

abbrev waiting : ProjectFiles
waiting = record { disposed = false; request_number = 3; project_files = []; revision_id = none }

abbrev first : Listing
first = record { files = "a" ∷ []; revision_id = some "v1" }

abbrev third : Listing
third = record { files = "a" ∷ "b" ∷ []; revision_id = some "v2" }

run-newest_example :
    run ((failed 2 ∷ []) ++ listed 3 third ∷ listed 1 first ∷ []) waiting
    ≡ record waiting { project_files = "a" ∷ "b" ∷ []; revision_id = some "v2" }
run-newest_example =
    run-newest waiting third (failed 2 ∷ []) (listed 1 first ∷ []) refl (tt, tt) (omega arith, tt)
