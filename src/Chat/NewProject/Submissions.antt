-- ===== src/Chat/NewProject/Submissions.antt =====
-- Submitting a new project.
use webbuilder.Base.{◌≡◌, arith}
use webbuilder.Chat.NewProject.{NewProject, handle_submit}

-- Submitting a second time before the answer changes nothing.
pub handle_submit_idempotent : (p : NewProject) → handle_submit (handle_submit p) ≡ handle_submit p
unfolding handle_submit
handle_submit_idempotent p = ground arith
