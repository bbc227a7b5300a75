-- ===== src/Chat/Landing/Opening.antt =====
-- From the landing page over the sign-in to the new project.
use webbuilder.Base.{
  ◌≤◌, ◌≡◌, refl, ◌∙◌, String, Bool, true, false, none, some, [], truthy, is_empty, trim,
  is_empty-trim-trim, utf16_length,
}
use webbuilder.Auth.Session.{Browser}
use webbuilder.Auth.Account.{UserData}
use webbuilder.Chat.Landing.{Hero, submit}
use webbuilder.Chat.NewProject.{NewProject}
use webbuilder.Chat.NewProject.SignedIn.{come_back, input-come_back}

-- the page of a new project, opened in the tab of the form
abbrev pub open_page : Browser → Hero → NewProject
open_page browser h = record {
  input = "";
  is_loading = false;
  error = "";
  is_authenticated = false;
  user_data = none;
  initial_draft = none;
  draft = h.draft;
  starter = h.starter;
  browser = browser;
  route = none;
  created = [];
}

submit-kept :
    (keeps : String → Bool) (h : Hero)
    → is_empty (trim h.prompt) ≡ false
    → h.opening ≡ false
    → keeps (trim h.prompt) ≡ true
    → ((submit keeps h).draft ≡ some (trim h.prompt)) × ((submit keeps h).route ≡ some "/chat")
unfolding submit
submit-kept keeps h b o k = rw (b, o, k) (refl, refl)

-- A brief that a visitor submits on the landing page, of 2000 characters at most and not blank,
-- is in the input of the new project once the visitor has signed in, without the white space
-- around it, if the storages take it and the user.
pub input-submit :
    (keeps accepts : String → Bool) (stringify : UserData → String) (h : Hero)
    (visitor browser : Browser) (user : UserData)
    → is_empty (trim h.prompt) ≡ false
    → h.opening ≡ false
    → keeps (trim h.prompt) ≡ true
    → utf16_length (trim h.prompt) ≤ 2000
    → truthy visitor.auth_token ≡ false
    → truthy browser.auth_token ≡ true
    → accepts (stringify user) ≡ true
    → (come_back keeps accepts stringify none browser user
        (open_page visitor (submit keeps h))).input
      ≡ trim h.prompt
input-submit keeps accepts stringify h visitor browser user b o k short out in_ a =
    let (kept, opened) = submit-kept keeps h b o k in
    (input-come_back keeps accepts stringify (open_page visitor (submit keeps h)) (trim h.prompt)
      browser user refl out in_ a kept (is_empty-trim-trim h.prompt ∙ b) short).1
