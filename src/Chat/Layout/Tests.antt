-- ===== src/Chat/Layout/Tests.antt =====
-- A divider that is dragged twice, the second time too far.
use webbuilder.Base.{◌≡◌, refl, true, List, [], ◌∷◌}
use webbuilder.Chat.Layout.{
  Layout, initial_layout, Event, resized, grabbed, moved, dropped, step, run, workspace_visible,
}

abbrev drag : List Event
drag =
    resized true ∷ grabbed ∷ moved 300 0 1000 ∷ moved 900 0 1000 ∷ dropped ∷ moved 400 0 1000 ∷ []

width_of_drag : (run drag initial_layout).preview_width ≡ 70000
unfolding run step webbuilder.Chat.Layout.handle_mouse_move webbuilder.Chat.Layout.handle_mouse_up
width_of_drag = refl

visible_after : workspace_visible (run drag initial_layout) ≡ true
unfolding workspace_visible run step webbuilder.Chat.Layout.handle_mouse_move
    webbuilder.Chat.Layout.handle_mouse_up
visible_after = refl
