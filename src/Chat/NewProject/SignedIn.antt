-- ===== src/Chat/NewProject/SignedIn.antt =====
-- What a new project starts from after signing in.
use webbuilder.Base.{
  slice-short, ℕ, ◌+◌, ◌≤◌, ◌≡◌, ◌≢◌, refl, sym, ap, ◌∙◌, String, Bool, true, false, not, ◌&&◌,
  Option, none, some, if◌then◌else◌, or_else, is_some, truthy, is_empty, trim, slice, utf16_length,
  eq_iff, arith, Bool-cases, if_keeps,
}
use webbuilder.Base.Exec.{ok}
use webbuilder.Auth.Session.{Browser}
use webbuilder.Auth.Account.{UserData, set_user_data}
use webbuilder.Chat.NewProject.{
  NewProject, Brief, find_brief, read_draft, set_up, on_user, max_project_draft_length,
}

-- the page opened anew, with another storage of credentials, in the same tab
abbrev pub reopen : Browser → NewProject → NewProject
reopen browser p = record p {
  input = "";
  is_loading = false;
  error = "";
  is_authenticated = false;
  user_data = none;
  initial_draft = none;
  browser = browser;
  route = none;
}

and_false : (b : Bool) → b && false ≡ false
and_false true = refl
and_false false = refl

module _ (keeps accepts : String → Bool) (stringify : UserData → String) where
  -- from the page that sends the user to sign in, to the answer on the page that is opened then
  unfoldable pub come_back :
      (explicit : Option String) → Browser → UserData → NewProject → NewProject
  come_back explicit browser user p =
      on_user accepts stringify false (ok user)
        (set_up keeps true none (reopen browser (set_up keeps true explicit p)))

  on_user-input :
      (user : UserData) (p : NewProject) (text : String)
      → accepts (stringify user) ≡ true
      → p.input ≡ ""
      → p.initial_draft ≡ some text
      → (on_user accepts stringify false (ok user) p).input ≡ text
  unfolding on_user set_user_data
  on_user-input user p text a i d = rw (a, i, d) refl

  set_up-out :
      (explicit : Option String) (p : NewProject)
      → p.initial_draft ≡ none
      → truthy p.browser.auth_token ≡ false
      → set_up keeps true explicit p
        ≡ record (read_draft keeps explicit p) { route = some "/signin" }
  unfolding set_up
  set_up-out explicit p n t = rw (n, t) refl

  set_up-in :
      (explicit : Option String) (p : NewProject)
      → p.initial_draft ≡ none
      → truthy p.browser.auth_token ≡ true
      → set_up keeps true explicit p ≡ read_draft keeps explicit p
  unfolding set_up
  set_up-in explicit p n t = rw (n, t) refl

  read_draft-kept :
      (p : NewProject) (text : String)
      → p.draft ≡ some text
      → is_empty (trim text) ≡ false
      → read_draft keeps none p
        ≡ record p { initial_draft = some (slice max_project_draft_length text) }
  unfolding read_draft
  read_draft-kept p text d b = rw (d, b) refl

  -- A draft that was written before signing in, of 2000 characters at most and not blank, is in
  -- the input afterwards, if the storage takes the user; the way there leads over the sign-in.
  pub input-come_back :
      (p : NewProject) (text : String) (browser : Browser) (user : UserData)
      → p.initial_draft ≡ none
      → truthy p.browser.auth_token ≡ false
      → truthy browser.auth_token ≡ true
      → accepts (stringify user) ≡ true
      → p.draft ≡ some text
      → is_empty (trim text) ≡ false
      → utf16_length text ≤ 2000
      → ((set_up keeps true none p).route ≡ some "/signin")
        × ((come_back none browser user p).input ≡ text)
  unfolding come_back
  input-come_back p text browser user n out in_ a d b short =
      let away =
        set_up-out none p n out
        ∙ ap (λ (q : NewProject). record q { route = some "/signin" })
            (read_draft-kept p text d b) in
      let again = reopen browser (set_up keeps true none p) in
      let back =
        set_up-in none again refl in_ ∙ read_draft-kept again text (ap (λ q. q.draft) away ∙ d) b in
      (
        ap (λ q. q.route) away,
        on_user-input user _ text a (ap (λ q. q.input) back) (
            ap (λ q. q.initial_draft) back
            ∙ ap some (slice-short max_project_draft_length text short)),
      )

  read_draft-chosen :
      (p : NewProject) (brief : Brief)
      → truthy p.browser.auth_token ≡ false
      → truthy (some brief.id) ≡ true
      → find_brief (some brief.id) ≡ some brief
      → keeps brief.id ≡ true
      → read_draft keeps (some brief.id) p
        ≡ record p { initial_draft = some brief.prompt; draft = none; starter = some brief.id }
  unfolding read_draft
  read_draft-chosen p brief out t f k = rw (t, f, and_false _, out, k) refl

  read_draft-remembered :
      (p : NewProject) (brief : Brief)
      → truthy p.browser.auth_token ≡ true
      → p.draft ≡ none
      → p.starter ≡ some brief.id
      → find_brief (some brief.id) ≡ some brief
      → read_draft keeps none p
        ≡ record p { initial_draft = some brief.prompt; draft = none; starter = none }
  unfolding read_draft webbuilder.Base.trim
  read_draft-remembered p brief in_ d s f = rw (d, s, f, in_) refl

  -- A starter that a link names before signing in is in the input afterwards, and is forgotten
  -- then, if the storages take its name and the user.
  pub starter-come_back :
      (p : NewProject) (brief : Brief) (browser : Browser) (user : UserData)
      → p.initial_draft ≡ none
      → truthy p.browser.auth_token ≡ false
      → truthy browser.auth_token ≡ true
      → accepts (stringify user) ≡ true
      → truthy (some brief.id) ≡ true
      → find_brief (some brief.id) ≡ some brief
      → keeps brief.id ≡ true
      → ((come_back (some brief.id) browser user p).input ≡ brief.prompt)
        × ((set_up keeps true none (reopen browser (set_up keeps true (some brief.id) p))).starter
            ≡ none)
  unfolding come_back
  starter-come_back p brief browser user n out in_ a t f k =
      let away =
        set_up-out (some brief.id) p n out
        ∙ ap (λ (q : NewProject). record q { route = some "/signin" })
            (read_draft-chosen p brief out t f k) in
      let again = reopen browser (set_up keeps true (some brief.id) p) in
      let back =
        set_up-in none again refl in_
        ∙ read_draft-remembered again brief in_ (ap (λ q. q.draft) away) (ap (λ q. q.starter) away)
            f in
      (
        on_user-input user _ brief.prompt a (ap (λ q. q.input) back)
            (ap (λ q. q.initial_draft) back),
        ap (λ q. q.starter) back,
      )
