-- ===== src/Chat/Composer.antt =====
-- The form below a conversation: frontend/components/chat/ChatInput.tsx. `lower` is `toLowerCase`.
-- The text and the run are those of the workspace.
pub mod Insertion
pub mod Enter
mod Tests
use Prim.Native.Char.{Char}
use Prim.Native.String
use webbuilder.Base.{
  String, Bool, true, false, not, ◌&&◌, ◌||◌, Option, none, some, List, [], ◌∷◌, map, filter,
  length, eqb, if◌then◌else◌, is_some, is_empty, is_space, trim, truthy, concat, ◌==◌,
}
use webbuilder.Projects.Filters.{includes}
use webbuilder.Chat.Workspace.{Workspace, handle_send_message, handle_cancel}

pub record Choice : Type 0 where
  pub name : String
  pub prompt : String

abbrev pub commands : List Choice
commands =
    record { name = "Improve layout"; prompt = "Improve the layout and spacing of this app. " }
    ∷ record {
      name = "Check accessibility";
      prompt = "Review and improve the accessibility of this app. ";
    }
    ∷ record { name = "Fix an issue"; prompt = "Fix this issue in my app: " }
    ∷ record { name = "Explain the code"; prompt = "Explain how the current app works. " }
    ∷ []

pub data Menu : Type 0 where
  file_menu command_menu : Menu

pub record Composer : Type 0 where
  pub menu : Option Menu
  pub query : String

abbrev pub close_menu : Composer
close_menu = record { menu = none; query = "" }

abbrev pub open_menu : Menu → Composer
open_menu next = record { menu = some next; query = "" }

abbrev pub is_file_menu : Option Menu → Bool
is_file_menu (some file_menu) = true
is_file_menu _ = false

abbrev pub file_choice : String → Choice
file_choice file = record { name = file; prompt = concat "@" (concat file " ") }

unfoldable pub choices : (lower : String → String) → List String → Composer → List Choice
choices lower files c =
    filter (λ item. includes (lower item.name) (lower c.query))
      (if is_file_menu c.menu then map file_choice files else commands)

-- `/\s$/.test(input)`
unfoldable pub ends_in_space : String → Bool
ends_in_space String.[] = false
ends_in_space (String.◌∷◌ c s) =
    let rest = ends_in_space s in if is_empty s then is_space c else rest

unfoldable pub insert : (input prompt : String) → String
insert input prompt =
    concat input
      (concat (if not (is_empty input) && not (ends_in_space input) then " " else "") prompt)

-- a click on one of the choices
unfoldable pub choose : Choice → Composer → Workspace → Composer × Workspace
choose item c w = (close_menu, record w { input = insert w.input item.prompt })

unfoldable pub menu_shown : (connected : Bool) → Composer → Workspace → Bool
menu_shown connected c w = is_some c.menu && not w.chat.is_building && connected

-- what stands where no choice is left
unfoldable pub empty_text : (lower : String → String) → List String → Composer → Option String
empty_text lower files c =
    if not (eqb (length (choices lower files c)) 0)
    then none
    else if is_file_menu c.menu && eqb (length files) 0
    then some "Saved files will appear after your first build."
    else some "No matches. Try a different search."

-- `onKeyDown` of the text area, in which `requestSubmit` submits the form
unfoldable pub on_key_down :
    (connected : Bool) → (key : String) → (shift composing : Bool) → Workspace → Workspace
on_key_down connected key shift composing w =
    if key == "Enter" && not shift && not composing
    then if connected && not w.chat.is_building && not (is_empty (trim w.input))
      then handle_send_message w
      else w
    else w

unfoldable pub input_disabled : (connected : Bool) → Workspace → Bool
input_disabled connected w = not connected || w.chat.is_building

-- the button at the right, and whether it is disabled: `Stop` while a run builds
pub data Button : Type 0 where
  stop send : (disabled : Bool) → Button

unfoldable pub button : (connected : Bool) → Workspace → Button
button connected w =
    if w.chat.is_building
    then stop (not (truthy w.chat.run_id))
    else send (not connected || is_empty (trim w.input))

-- A disabled button does nothing.
abbrev pub press : Button → Workspace → Workspace
press (stop disabled) w = if disabled then w else handle_cancel w
press (send disabled) w = if disabled then w else handle_send_message w

unfoldable pub status_text : (connected : Bool) → Workspace → String
status_text connected w =
    if w.chat.is_building
    then "Working on your app"
    else if connected
    then "Connected"
    else "Reconnecting to your project…"
