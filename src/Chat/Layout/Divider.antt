-- ===== src/Chat/Layout/Divider.antt =====
-- Where the divider can be.
use webbuilder.Base.{ℕ, ◌*◌, ◌<◌, List, [], ◌∷◌, if_keeps, arith}
use webbuilder.Chat.Layout.{
  Layout, initial_layout, handle_mouse_move, handle_mouse_up, Event, resized, grabbed, moved,
  dropped, shown, pane_chosen, tab_chosen, step, run,
}

-- The preview takes more than 30 and less than 80 percent.
pub record IsWithin (l : Layout) : Type 0 where
  pub wide : 30 * l.preview_scale < l.preview_width
  pub narrow : l.preview_width < 80 * l.preview_scale

handle_mouse_move-IsWithin :
    (client_x left width : ℕ) (l : Layout)
    → IsWithin l
    → IsWithin (handle_mouse_move client_x left width l)
unfolding handle_mouse_move
handle_mouse_move-IsWithin client_x left width l h = ground arith

step-IsWithin : (event : Event) (l : Layout) → IsWithin l → IsWithin (step event l)
unfolding step handle_mouse_up
step-IsWithin (resized matches) l h = record { wide = h.wide; narrow = h.narrow }
step-IsWithin grabbed l h = record { wide = h.wide; narrow = h.narrow }
step-IsWithin (moved client_x left width) l h = handle_mouse_move-IsWithin client_x left width l h
step-IsWithin dropped l h =
    if_keeps IsWithin l.is_dragging (record { wide = h.wide; narrow = h.narrow }) h
step-IsWithin (shown b) l h = record { wide = h.wide; narrow = h.narrow }
step-IsWithin (pane_chosen pane) l h = record { wide = h.wide; narrow = h.narrow }
step-IsWithin (tab_chosen tab) l h = record { wide = h.wide; narrow = h.narrow }

run-stays : (events : List Event) (l : Layout) → IsWithin l → IsWithin (run events l)
unfolding run
run-stays [] l h = h
run-stays (event ∷ events) l h = run-stays events (step event l) (step-IsWithin event l h)

-- Wherever the mouse is dragged, in a container of any width, the preview keeps more than 30 and
-- less than 80 percent of it.
pub run-IsWithin : (events : List Event) → IsWithin (run events initial_layout)
run-IsWithin events =
    run-stays events initial_layout (record { wide = omega arith; narrow = omega arith })
