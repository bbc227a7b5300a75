-- ===== src/Chat/NewProject/Tests.antt =====
-- A draft and a starter over a sign-in.
use webbuilder.Base.{◌≡◌, refl, false, none, some, [], ◌∷◌, trim, slice, utf16_length}
use webbuilder.Chat.NewProject.{
  NewProject, Brief, find_brief, starter_briefs, set_up, handle_submit, on_created,
  max_project_draft_length,
}
use webbuilder.Chat.NewProject.SignedIn.{come_back}
use webbuilder.Samples.{signed_in, signed_out, account, takes_all, stringify}

abbrev first_visit : NewProject
first_visit = record {
  input = "";
  is_loading = false;
  error = "";
  is_authenticated = false;
  user_data = none;
  initial_draft = none;
  draft = some " a shop";
  starter = none;
  browser = signed_out;
  route = none;
  created = [];
}

abbrev habits : Brief
habits = record {
  id = "habits";
  title = "Small daily wins";
  category = "Productivity";
  description = "Make a little progress every day.";
  prompt = "Build a habit tracker with editable habits and a clear daily checklist.";
}

posted_prompt :
    (handle_submit
      (come_back takes_all takes_all stringify none signed_in account first_visit)).created
    ≡ "a shop" ∷ []
unfolding handle_submit trim come_back webbuilder.Chat.NewProject.on_user
    webbuilder.Auth.Account.set_user_data set_up webbuilder.Chat.NewProject.read_draft slice
    utf16_length
posted_prompt = refl
