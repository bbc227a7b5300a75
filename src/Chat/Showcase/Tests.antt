-- ===== src/Chat/Showcase/Tests.antt =====
-- Browsing past the first concept, and opening the link of the one in front.
use webbuilder.Base.{◌≡◌, refl, true, false, none, some, List, [], ◌∷◌}
use webbuilder.Chat.NewProject.{NewProject}
use webbuilder.Chat.Showcase.{
  Event, arrow_clicked, key_pressed, previous, next, initial_showcase, run, brief, position_text,
}
use webbuilder.Chat.Showcase.Starters.{IsLinked, open_link, run-IsLinked}
use webbuilder.Samples.{signed_in, account, takes_all, stringify}

abbrev browsing : List Event
browsing = arrow_clicked previous 1 ∷ key_pressed true "ArrowLeft" ∷ key_pressed true "Tab" ∷ []

abbrev new_page : NewProject
new_page = record {
  input = "";
  is_loading = false;
  error = "";
  is_authenticated = false;
  user_data = none;
  initial_draft = none;
  draft = some "an older draft";
  starter = none;
  browser = signed_in;
  route = none;
  created = [];
}

second_in_front : (run browsing initial_showcase).active ≡ 1
unfolding run webbuilder.Chat.Showcase.step webbuilder.Chat.Showcase.on_key_down
    webbuilder.Chat.Showcase.move
second_in_front = refl

run-IsLinked_example :
    IsLinked
      (λ b. (open_link takes_all takes_all stringify b account new_page).input)
      (brief (run browsing initial_showcase))
run-IsLinked_example =
    run-IsLinked takes_all takes_all stringify browsing account new_page refl refl refl refl
