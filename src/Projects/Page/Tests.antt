-- ===== src/Projects/Page/Tests.antt =====
-- A user who looks at the projects and leaves.
use webbuilder.Base.{◌≡◌, refl, true, false, none}
use webbuilder.Base.Exec.{ok}
use webbuilder.Projects.Page.{Page, set_up, on_user}
use webbuilder.Samples.{signed_in, account}

abbrev opened : Page
opened = record { ready = false; user = none; disposed = false; browser = signed_in; route = none }

listed : (on_user (ok account) (set_up opened)).ready ≡ true
unfolding on_user set_up
listed = refl
