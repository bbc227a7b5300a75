-- ===== src/Chat/InputBox/Tests.antt =====
-- An example that is chosen and sent.
use webbuilder.Base.{◌≡◌, refl, true, false, none, some, List, [], ◌∷◌, All}
use webbuilder.Chat.NewProject.{NewProject, handle_submit}
use webbuilder.Chat.InputBox.{InputBox, press_submit, submit_disabled, status_text, type_text}
use webbuilder.Samples.{signed_in, account}

abbrev ready : NewProject
ready = record {
  input = " ";
  is_loading = false;
  error = "";
  is_authenticated = true;
  user_data = some account;
  initial_draft = some "";
  draft = none;
  starter = none;
  browser = signed_in;
  route = none;
  created = [];
}

abbrev closed : InputBox
closed = record { show_examples = false }

blank_is_refused : submit_disabled ready ≡ true
unfolding submit_disabled webbuilder.Chat.InputBox.controls_disabled webbuilder.Base.trim
blank_is_refused = refl

typed_is_sent : (press_submit (type_text " a shop " ready)).created ≡ "a shop" ∷ []
unfolding press_submit submit_disabled webbuilder.Chat.InputBox.controls_disabled type_text
    webbuilder.Base.trim webbuilder.Base.slice webbuilder.Base.utf16_length handle_submit
typed_is_sent = refl
