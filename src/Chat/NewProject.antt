-- ===== src/Chat/NewProject.antt =====
-- `useNewProject` of frontend/hooks/chat/useNewProject.ts, with frontend/lib/projects/draft.ts and
-- starterBriefs.ts, cut at its awaits. The two keys of `sessionStorage` are fields; where it is not
-- `available`, everything asked of it throws, and `keeps` says which values it takes. A chat that
-- is asked of the server goes into `created`.
pub mod SignedIn
pub mod Submissions
mod Tests
use webbuilder.Base.{
  ℕ, String, Bool, true, false, not, ◌&&◌, ◌||◌, Option, none, some, List, [], ◌∷◌, ◌++◌,
  if◌then◌else◌, or_else, is_some, find, truthy, is_empty, trim, slice, concat, ◌==◌,
}
use webbuilder.Base.Exec.{Result, ok, err}
use webbuilder.Auth.Session.{Browser, clear_session}
use webbuilder.Auth.Account.{UserData, set_user_data}

abbrev pub max_project_draft_length : ℕ
max_project_draft_length = 2000

pub record Brief : Type 0 where
  pub id : String
  pub title : String
  pub category : String
  pub description : String
  pub prompt : String

abbrev pub starter_briefs : List Brief
starter_briefs =
    record {
      id = "reading";
      title = "The reading room";
      category = "Personal";
      description = "A home for your next good book.";
      prompt =
          "Build a reading list where I can add books, mark them finished, and search my collection.";
    }
    ∷ record {
      id = "habits";
      title = "Small daily wins";
      category = "Productivity";
      description = "Make a little progress every day.";
      prompt = "Build a habit tracker with editable habits and a clear daily checklist.";
    }
    ∷ record {
      id = "portfolio";
      title = "Selected work";
      category = "Portfolio";
      description = "Give your projects a place to live.";
      prompt =
          "Build a portfolio for a designer with a project gallery, project details, and a contact form.";
    }
    ∷ []

pub record NewProject : Type 0 where
  pub input : String
  pub is_loading : Bool
  pub error : String
  pub is_authenticated : Bool
  pub user_data : Option UserData
  pub initial_draft : Option String
  -- PROJECT_DRAFT_KEY and "webbuilder-starter" of sessionStorage
  pub draft : Option String
  pub starter : Option String
  pub browser : Browser
  pub route : Option String
  pub created : List String

unfoldable pub find_brief : Option String → Option Brief
find_brief none = none
find_brief (some id) = find (λ item. item.id == id) starter_briefs

module _ (keeps : String → Bool) where
  -- the branch of a starter: what it leaves in the storage
  abbrev pub take_starter : (signed_in : Bool) → Option Brief → NewProject → NewProject
  take_starter signed_in none p = p
  take_starter signed_in (some brief) p = record p {
    initial_draft = some brief.prompt;
    draft = none;
    starter = if signed_in then none else if keeps brief.id then some brief.id else p.starter;
  }

  -- the `try` block, for a starter that the address names
  unfoldable pub read_draft : (explicit : Option String) → NewProject → NewProject
  read_draft explicit p =
      let brief = find_brief (if truthy explicit then explicit else p.starter) in
      let q = record p { initial_draft = some "" } in
      if not (is_empty (trim (or_else p.draft ""))) && not (truthy explicit && is_some brief)
      then record q { initial_draft = some (slice max_project_draft_length (or_else p.draft "")) }
      else take_starter (truthy p.browser.auth_token) brief q

  -- the effect, up to its request; without a token the user is sent to sign in
  unfoldable pub set_up : (available : Bool) → (explicit : Option String) → NewProject → NewProject
  set_up available explicit p =
      let q =
        if is_some p.initial_draft
        then p
        else if available
        then read_draft explicit p
        else record p { initial_draft = some "" } in
      if truthy p.browser.auth_token then q else record q { route = some "/signin" }

abbrev pub account_failed : NewProject → NewProject
account_failed p = record p { error = "Could not load your account. Refresh to try again." }

abbrev pub after_user : UserData → Result (Unit {0}) × Browser → NewProject → NewProject
after_user user (err message, b) p = account_failed (record p { browser = b })
after_user user (ok _, b) p = record p {
  browser = b;
  input = if is_empty p.input then or_else p.initial_draft "" else p.input;
  user_data = some user;
  is_authenticated = true;
}

module _ (accepts : String → Bool) (stringify : UserData → String) where
  unfoldable pub on_user : (disposed : Bool) → Result UserData → NewProject → NewProject
  on_user disposed (err message) p = if disposed then p else account_failed p
  on_user disposed (ok user) p =
      if disposed then p else after_user user (set_user_data accepts (stringify user) p.browser) p

unfoldable pub handle_sign_out : NewProject → NewProject
handle_sign_out p = record p {
  browser = clear_session p.browser;
  is_authenticated = false;
  user_data = none;
  route = some "/";
}

-- `handleSubmit`, up to its await
unfoldable pub handle_submit : NewProject → NewProject
handle_submit p =
    if is_empty (trim p.input) || p.is_loading || not p.is_authenticated
    then p
    else record p { is_loading = true; error = ""; created = p.created ++ trim p.input ∷ [] }

-- what follows it; the answer is the id of the chat
unfoldable pub on_created : (available : Bool) → Result String → NewProject → NewProject
on_created available (ok chat_id) p = record p {
  draft = if available then none else p.draft;
  route = some (concat "/chat/" chat_id);
}
on_created available (err message) p = record p {
  error = "Failed to create chat. Please try again.";
  is_loading = false;
}
