-- ===== src/Chat/Page/Tests.antt =====
-- A divider that is dragged and then moved with the keys, past both ends.
use webbuilder.Base.{◌≡◌, refl, true, false, none, some, List, [], ◌∷◌}
use webbuilder.Chat.Layout as L
use webbuilder.Chat.Layout.{initial_layout}
use webbuilder.Chat.Workspace.{Workspace}
use webbuilder.Chat.Page.{
  Event, layout, key_pressed, preview_toggled, run, conversation_width, rows, introduction, working,
  failure,
}
use webbuilder.Chat.Page.Separator.{IsAnnounced, run-IsAnnounced}
use webbuilder.Samples.{signed_in, no_chat}

abbrev to_the_left : List Event
to_the_left =
    layout L.grabbed
    ∷ layout (L.moved 300 0 1000)
    ∷ layout L.dropped
    ∷ key_pressed "ArrowLeft"
    ∷ key_pressed "ArrowLeft"
    ∷ key_pressed "ArrowLeft"
    ∷ []

least_share : conversation_width (run to_the_left initial_layout) ≡ 20000
unfolding conversation_width run webbuilder.Chat.Page.step webbuilder.Chat.Page.on_key_down
    webbuilder.Chat.Page.nudge L.step L.handle_mouse_up L.handle_mouse_move
least_share = refl

abbrev sending : Workspace
sending = record {
  chat = record no_chat { is_building = true; error = some "Lost" };
  input = "";
  is_loading = false;
  user_data = none;
  follow_latest = true;
  browser = signed_in;
  starts = [];
  cancels = [];
  resyncs = 0;
}

rows_of_a_start : rows sending ≡ (failure "Lost" ∷ introduction ∷ working ∷ [])
unfolding rows webbuilder.Chat.Page.bubbles
rows_of_a_start = refl

run-IsAnnounced_example : IsAnnounced (run to_the_left initial_layout)
run-IsAnnounced_example = run-IsAnnounced to_the_left
