-- ===== src/Chat/Page/Separator.antt =====
-- The value that the divider announces.
use Prim.Native.Nat.{max}
use webbuilder.Base.{ℕ, ◌*◌, ◌≤◌, min, List, [], ◌∷◌, Bool, if_keeps, ◌==◌, ◌||◌, arith}
use webbuilder.Chat.Layout as L
use webbuilder.Chat.Layout.{Layout, initial_layout, handle_mouse_move, handle_mouse_up}
use webbuilder.Chat.Page.{
  Event, layout, key_pressed, preview_toggled, workspace_opened, nudge, on_key_down, toggle_preview,
  open_workspace, step, run, conversation_width, value_min, value_max,
}

-- the value is where `aria-valuemin` and `aria-valuemax` say
pub record IsAnnounced (l : Layout) : Type 0 where
  pub least : value_min * l.preview_scale ≤ conversation_width l
  pub most : conversation_width l ≤ value_max * l.preview_scale

-- The preview takes 30 to 80 percent.
record IsBounded (l : Layout) : Type 0 where
  wide : 30 * l.preview_scale ≤ l.preview_width
  narrow : l.preview_width ≤ 80 * l.preview_scale

clamped :
    (scale moved : ℕ)
    → (30 * scale ≤ max (30 * scale) (min (80 * scale) moved))
      × (max (30 * scale) (min (80 * scale) moved) ≤ 80 * scale)
clamped scale moved = (omega arith, omega arith)

nudge-IsBounded : (leftwards : Bool) (l : Layout) → IsBounded (nudge leftwards l)
unfolding nudge
nudge-IsBounded leftwards l = record {
  wide = (clamped l.preview_scale _).0;
  narrow = (clamped l.preview_scale _).1;
}

handle_mouse_move-IsBounded :
    (client_x left width : ℕ) (l : Layout)
    → IsBounded l
    → IsBounded (handle_mouse_move client_x left width l)
unfolding handle_mouse_move
handle_mouse_move-IsBounded client_x left width l h = ground arith

layout-IsBounded : (event : L.Event) (l : Layout) → IsBounded l → IsBounded (L.step event l)
unfolding L.step handle_mouse_up
layout-IsBounded (L.resized matches) l h = record { wide = h.wide; narrow = h.narrow }
layout-IsBounded L.grabbed l h = record { wide = h.wide; narrow = h.narrow }
layout-IsBounded (L.moved client_x left width) l h =
    handle_mouse_move-IsBounded client_x left width l h
layout-IsBounded L.dropped l h =
    if_keeps IsBounded l.is_dragging (record { wide = h.wide; narrow = h.narrow }) h
layout-IsBounded (L.shown b) l h = record { wide = h.wide; narrow = h.narrow }
layout-IsBounded (L.pane_chosen pane) l h = record { wide = h.wide; narrow = h.narrow }
layout-IsBounded (L.tab_chosen tab) l h = record { wide = h.wide; narrow = h.narrow }

step-IsBounded : (event : Event) (l : Layout) → IsBounded l → IsBounded (step event l)
unfolding step on_key_down toggle_preview open_workspace
step-IsBounded (layout event) l h = layout-IsBounded event l h
step-IsBounded (key_pressed key) l h =
    if_keeps IsBounded (key == "ArrowLeft" || key == "ArrowRight")
      (nudge-IsBounded (key == "ArrowLeft") l) h
step-IsBounded preview_toggled l h = record { wide = h.wide; narrow = h.narrow }
step-IsBounded workspace_opened l h = record { wide = h.wide; narrow = h.narrow }

run-IsBounded : (events : List Event) (l : Layout) → IsBounded l → IsBounded (run events l)
unfolding run
run-IsBounded [] l h = h
run-IsBounded (event ∷ events) l h = run-IsBounded events (step event l) (step-IsBounded event l h)

IsAnnounced-of : (l : Layout) → IsBounded l → IsAnnounced l
unfolding conversation_width
IsAnnounced-of l h = record {
  least = omega (arith, h.wide, h.narrow);
  most = omega (arith, h.wide, h.narrow);
}

-- Wherever the divider is dragged and whatever keys are pressed on it, the share of the
-- conversation that it announces is between the least and the greatest value that it announces.
pub run-IsAnnounced : (events : List Event) → IsAnnounced (run events initial_layout)
run-IsAnnounced events =
    IsAnnounced-of _
      (run-IsBounded events initial_layout (record { wide = omega arith; narrow = omega arith }))
