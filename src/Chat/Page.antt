-- ===== src/Chat/Page.antt =====
-- The page of a chat: frontend/components/chat/ChatWorkspace.tsx, over the layout and the workspace.
pub mod Separator
mod Tests
use Prim.Native.Nat.{max}
use webbuilder.Base.{
  ℕ, ◌+◌, ◌-◌, ◌*◌, min, String, Bool, true, false, not, ◌&&◌, ◌||◌, Option, none, some, List, [],
  ◌∷◌, ◌++◌, any, length, eqb, if◌then◌else◌, or_else, truthy, concat, ◌==◌,
}
use webbuilder.Chat.Types.{Message}
use webbuilder.Chat.Layout as L
use webbuilder.Chat.Layout.{Layout}
use webbuilder.Chat.Workspace.{Workspace}

-- the arrow keys on the divider: 5 percent of the width to either side
unfoldable pub nudge : (leftwards : Bool) → Layout → Layout
nudge leftwards l =
    let moved =
      if leftwards
      then l.preview_width + 5 * l.preview_scale
      else l.preview_width - 5 * l.preview_scale in
    record l { preview_width = max (30 * l.preview_scale) (min (80 * l.preview_scale) moved) }

unfoldable pub on_key_down : (key : String) → Layout → Layout
on_key_down key l =
    if key == "ArrowLeft" || key == "ArrowRight" then nudge (key == "ArrowLeft") l else l

unfoldable pub toggle_preview : Layout → Layout
toggle_preview l = record l { show_preview = not l.show_preview; mobile_pane = "chat" }

unfoldable pub open_workspace : Layout → Layout
open_workspace l = record l { show_preview = true; mobile_pane = "preview" }

pub data Event : Type 0 where
  layout : L.Event → Event
  key_pressed : String → Event
  preview_toggled : Event
  workspace_opened : Event

unfoldable pub step : Event → Layout → Layout
step (layout event) l = L.step event l
step (key_pressed key) l = on_key_down key l
step preview_toggled l = toggle_preview l
step workspace_opened l = open_workspace l

unfoldable pub run : List Event → Layout → Layout
run [] l = l
run (event ∷ events) l = run events (step event l)

-- `100 - previewWidth`, in the scale of the layout
unfoldable pub conversation_width : Layout → ℕ
conversation_width l = 100 * l.preview_scale - l.preview_width

-- `aria-valuemin` and `aria-valuemax`
abbrev pub value_min : ℕ
value_min = 20

abbrev pub value_max : ℕ
value_max = 70

-- the rows of the conversation, from top to bottom
pub data Row : Type 0 where
  loading_messages : Row
  failure : String → Row
  introduction : Row
  bubble : Message → Row
  working : Row

unfoldable pub bubbles : List Message → List Row
bubbles [] = []
bubbles (m ∷ messages) = bubble m ∷ bubbles messages

abbrev pub when : Bool → Row → List Row
when shown row = if shown then row ∷ [] else []

-- the template `run:${runId}`
abbrev pub run_message_id : Option String → String
run_message_id run_id = concat "run:" (or_else run_id "null")

unfoldable pub rows : Workspace → List Row
rows w =
    when w.is_loading loading_messages
    ++ when (truthy w.chat.error) (failure (or_else w.chat.error ""))
    ++ when (eqb (length w.chat.messages) 0 && not w.is_loading) introduction
    ++ bubbles w.chat.messages
    ++ when
        (w.chat.is_building
          && not (any (λ m. m.id == run_message_id w.chat.run_id) w.chat.messages))
        working
