-- ===== src/Chat/Layout.antt =====
-- `useWorkspaceLayout` of frontend/hooks/chat/useWorkspaceLayout.ts. The width of the preview is a
-- percentage that is computed by a division: here it is `width / scale`, with `scale` the width of
-- the container. A position left of the container is 0, which the test refuses as well.
pub mod Divider
mod Tests
use webbuilder.Base.{
  ℕ, ◌-◌, ◌*◌, String, Bool, true, false, not, ◌&&◌, ◌||◌, Option, none, some, List, [], ◌∷◌,
  if◌then◌else◌, or_else, is_some, ltb, ◌==◌,
}

pub data PreviewTab : Type 0 where
  preview files : PreviewTab

pub record Layout : Type 0 where
  pub preview_width : ℕ
  pub preview_scale : ℕ
  pub is_dragging : Bool
  pub show_preview : Bool
  pub mobile_pane : String
  pub preview_tab : PreviewTab
  pub desktop_preview : Option Bool

abbrev pub initial_layout : Layout
initial_layout = record {
  preview_width = 50;
  preview_scale = 1;
  is_dragging = false;
  show_preview = true;
  mobile_pane = "chat";
  preview_tab = preview;
  desktop_preview = none;
}

unfoldable pub workspace_visible : Layout → Bool
workspace_visible l =
    l.show_preview
    && is_some l.desktop_preview
    && (or_else l.desktop_preview false || l.mobile_pane == "preview")

-- `chatWidth > 20 && chatWidth < 70`, with `chatWidth` as `mouse_x * 100 / width`
abbrev pub is_wide_enough : (mouse_x width : ℕ) → Bool
is_wide_enough mouse_x width = ltb (20 * width) (mouse_x * 100) && ltb (mouse_x * 100) (70 * width)

unfoldable pub handle_mouse_move : (client_x left width : ℕ) → Layout → Layout
handle_mouse_move client_x left width l =
    let mouse_x = client_x - left in
    if l.is_dragging && is_wide_enough mouse_x width
    then record l { preview_width = 100 * width - mouse_x * 100; preview_scale = width }
    else l

-- the listener is there while the divider is dragged
unfoldable pub handle_mouse_up : Layout → Layout
handle_mouse_up l = if l.is_dragging then record l { is_dragging = false } else l

pub data Event : Type 0 where
  resized : (matches : Bool) → Event
  grabbed : Event
  moved : (client_x left width : ℕ) → Event
  dropped : Event
  shown : Bool → Event
  pane_chosen : String → Event
  tab_chosen : PreviewTab → Event

unfoldable pub step : Event → Layout → Layout
step (resized matches) l = record l { desktop_preview = some matches }
step grabbed l = record l { is_dragging = true }
step (moved client_x left width) l = handle_mouse_move client_x left width l
step dropped l = handle_mouse_up l
step (shown b) l = record l { show_preview = b }
step (pane_chosen pane) l = record l { mobile_pane = pane }
step (tab_chosen tab) l = record l { preview_tab = tab }

unfoldable pub run : List Event → Layout → Layout
run [] l = l
run (event ∷ events) l = run events (step event l)
