-- ===== src/Chat/InputBox.antt =====
-- The form of a new project: frontend/components/chat/ChatInputBox.tsx, as
-- frontend/components/chat/ChatPage.tsx uses it over `useNewProject`.
pub mod Form
mod Tests
use webbuilder.Base.{ℕ, String, Bool, true, false, not, ◌||◌, if◌then◌else◌, is_empty, trim, slice}
use webbuilder.Chat.NewProject.{NewProject, Brief, handle_submit, max_project_draft_length}

pub record InputBox : Type 0 where
  pub show_examples : Bool

unfoldable pub controls_disabled : NewProject → Bool
controls_disabled p = p.is_loading || not p.is_authenticated

abbrev pub submit_label : NewProject → String
submit_label p = if p.is_loading then "Starting your project" else "Start building"

unfoldable pub submit_disabled : NewProject → Bool
submit_disabled p = controls_disabled p || is_empty (trim p.input)

-- typing, which the field stops at its `maxLength`
unfoldable pub type_text : String → NewProject → NewProject
type_text text p =
    if controls_disabled p then p else record p { input = slice max_project_draft_length text }

unfoldable pub toggle_examples : NewProject → InputBox → InputBox
toggle_examples p box =
    if controls_disabled p then box else record { show_examples = not box.show_examples }

-- a click on one of the examples
unfoldable pub choose_starter : Brief → NewProject → InputBox → NewProject × InputBox
choose_starter starter p box =
    if controls_disabled p
    then (p, box)
    else (record p { input = starter.prompt }, record { show_examples = false })

-- a click on the button; a disabled one does nothing
unfoldable pub press_submit : NewProject → NewProject
press_submit p = if submit_disabled p then p else handle_submit p

unfoldable pub status_text : NewProject → String
status_text p =
    if p.is_loading
    then "Starting your project…"
    else if not p.is_authenticated
    then "Loading your account…"
    else ""
