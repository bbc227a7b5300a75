-- ===== src/Files/Viewer/Shown.antt =====
-- What the viewer shows.
use mathlib.Core.Option.{some-injective}
use webbuilder.Base.{
  ℕ, subst, any, is_some, String, true, ◌&&◌, ◌≡◌, refl, ◌∙◌, ap, ◌⊎◌, inl, inr, Option, none, some,
  List, [], ◌∷◌, if_keeps, or_else, truthy, same_text, ◌==◌, Bool-cases,
}
use webbuilder.Auth.Session.{get_session_id}
use webbuilder.Files.ContentCache.{SavedFileContent, Cache}
use webbuilder.Files.ContentCache.Invariant.{IsValid}
use webbuilder.Files.Viewer.{
  Pending, Viewer, Event, listed, selected, revised, answered, refused, session, failure, text_of,
  show, key_for, start_reading, open_file, open_selected, select, revise, list_files, keep,
  show_kept, on_read, on_read_failed, on_answer, step, run,
}
use webbuilder.Files.Viewer.Memory.{IsFaithful, IsInjective, cached-IsFaithful, keep-IsFaithful}

module _ (key_of : (session_id project_id revision_id path : String) → String) (project_id : String)
    (serve : (now : ℕ)
      → (session_id revision_id : Option String) (path : String) → SavedFileContent) where
  -- nothing, a failure, or the selected file at the revision on show
  pub IsShown : Viewer → Type 0
  IsShown v =
      (v.file_content ≡ "")
      ⊎ ((v.file_content ≡ failure)
          ⊎ ((now : ℕ) × (s : Option String) × (v.file_content
                ≡ text_of (serve now s v.revision_id (or_else v.selected_file "")))))

  -- the request is for the selected file at the revision on show, under its key
  pub record IsAsked (v : Viewer) (p : Pending) : Type 0 where
    pub path : p.path ≡ or_else v.selected_file ""
    pub revision : p.revision_id ≡ v.revision_id
    pub key : p.key ≡ key_for key_of project_id p.session_id p.revision_id p.path

  pub record IsTrue (v : Viewer) : Type 0 where
    pub valid : IsValid v.browser.cache
    pub faithful : IsFaithful key_of project_id serve v.browser.cache
    pub shown : truthy v.selected_file ≡ true → IsShown v
    pub asked : (p : Pending) → v.pending ≡ some p → IsAsked v p

  -- The invariant reads the memory, the selection, the revision, the content and the request.
  same-IsTrue :
      (v w : Viewer)
      → w.browser.cache ≡ v.browser.cache
      → w.selected_file ≡ v.selected_file
      → w.revision_id ≡ v.revision_id
      → w.file_content ≡ v.file_content
      → w.pending ≡ v.pending
      → IsTrue v
      → IsTrue w
  unfolding IsShown
  same-IsTrue v w a b c d e h = record {
    valid = rw a h.valid;
    faithful = rw a h.faithful;
    shown = λ t. rw (b, c, d) (h.shown (rw b at t));
    asked = λ p q.
        let k = h.asked p (rw e at q) in
        record { path = rw b k.path; revision = rw c k.revision; key = k.key };
  }

  start_reading-IsTrue :
      (p : Pending) (o : Option SavedFileContent) (v : Viewer)
      → IsValid v.browser.cache
      → IsFaithful key_of project_id serve v.browser.cache
      → IsAsked v p
      → ((file : SavedFileContent)
          → o ≡ some file
          → (now : ℕ) × (file ≡ serve now p.session_id p.revision_id p.path))
      → IsTrue (start_reading p o v)
  unfolding start_reading show IsShown
  start_reading-IsTrue p none v val f k same = record {
    valid = val;
    faithful = f;
    shown = λ t. inl refl;
    asked = λ q e.
        subst (IsAsked _) (some-injective p q e)
          (record { path = k.path; revision = k.revision; key = k.key });
  }
  start_reading-IsTrue p (some file) v val f k same = record {
    valid = val;
    faithful = f;
    shown = λ t.
        let (now, e) = same file refl in
        inr (inr (now, p.session_id, ap text_of e ∙ rw (k.path, k.revision) refl));
    asked = λ q e. cc;
  }

  open_file-IsTrue :
      (path : String) (v : Viewer)
      → path ≡ or_else v.selected_file ""
      → IsValid v.browser.cache
      → IsFaithful key_of project_id serve v.browser.cache
      → IsTrue (open_file key_of project_id path v)
  unfolding open_file
  open_file-IsTrue path v s val f =
      start_reading-IsTrue _ _ v val f (record { path = s; revision = refl; key = refl })
        (λ file e.
          cached-IsFaithful key_of project_id serve v.browser.cache (get_session_id v.browser)
            v.revision_id path file f e)

  open_selected-IsTrue :
      (v : Viewer)
      → IsValid v.browser.cache
      → IsFaithful key_of project_id serve v.browser.cache
      → IsTrue (open_selected key_of project_id v.selected_file v)
  unfolding open_selected
  open_selected-IsTrue v val f = elim (Bool-cases (truthy v.selected_file)) [
    | inl t ↦
        rw t
          (open_file-IsTrue (or_else v.selected_file "") (record v { pending = none }) refl val f)
    | inr t ↦ rw t (record { valid = val; faithful = f; shown = λ u. cc (t, u); asked = λ p e. cc })
  ]

  select-IsTrue :
      (file : Option String) (v : Viewer) → IsTrue v → IsTrue (select key_of project_id file v)
  unfolding select
  select-IsTrue file v h =
      if_keeps IsTrue (same_text file v.selected_file) h
        (open_selected-IsTrue (record v { selected_file = file }) h.valid h.faithful)

  revise-IsTrue :
      (r : Option String) (v : Viewer) → IsTrue v → IsTrue (revise key_of project_id r v)
  unfolding revise
  revise-IsTrue r v h =
      if_keeps IsTrue (same_text r v.revision_id) h
        (open_selected-IsTrue (record v { revision_id = r }) h.valid h.faithful)

  list_files-IsTrue :
      (files : List String) (v : Viewer) → IsTrue v → IsTrue (list_files key_of project_id files v)
  unfolding list_files
  list_files-IsTrue files v h =
      let q = same-IsTrue v (record v { files = files }) refl refl refl refl refl h in
      if_keeps IsTrue (truthy v.selected_file && any (λ g. g == or_else v.selected_file "") files) q
        (select-IsTrue _ _ q)

  settled-IsTrue :
      (v w : Viewer)
      → w.selected_file ≡ v.selected_file
      → w.revision_id ≡ v.revision_id
      → IsValid w.browser.cache
      → IsFaithful key_of project_id serve w.browser.cache
      → w.pending ≡ none
      → (truthy w.selected_file ≡ true → IsShown w)
      → IsTrue w
  settled-IsTrue v w a b val f e s = record {
    valid = val;
    faithful = f;
    shown = s;
    asked = λ p q. cc (e, q);
  }

  show_kept-IsTrue :
      (now : ℕ) (p : Pending) (o : Option Cache) (v : Viewer)
      → IsInjective key_of project_id serve
      → IsTrue v
      → IsAsked v p
      → keep p.key (serve now p.session_id p.revision_id p.path) v.browser.cache ≡ o
      → IsTrue (show_kept (serve now p.session_id p.revision_id p.path) o v)
  unfolding show_kept show IsShown
  show_kept-IsTrue now p none v inj h k e =
      settled-IsTrue v _ refl refl h.valid h.faithful refl (λ t. inr (inl refl))
  show_kept-IsTrue now p (some c) v inj h k e =
      let (val, f) =
        keep-IsFaithful key_of project_id serve v.browser.cache c now p.session_id p.revision_id
          p.path inj h.valid h.faithful (rw k.key at e) in
      settled-IsTrue v _ refl refl val f refl
        (λ t. inr (inr (now, p.session_id, rw (k.path, k.revision) refl)))

  on_answer-IsTrue :
      (now : ℕ) (o : Option Pending) (v : Viewer)
      → IsInjective key_of project_id serve
      → v.pending ≡ o
      → IsTrue v
      → IsTrue (on_answer key_of project_id serve now o v)
  unfolding on_answer on_read IsShown
  on_answer-IsTrue now none v inj e h = h
  on_answer-IsTrue now (some p) v inj e h =
      if_keeps IsTrue (same_text (get_session_id v.browser) p.session_id)
        (show_kept-IsTrue now p _ v inj h (h.asked p e) refl)
        (settled-IsTrue v _ refl refl h.valid h.faithful refl h.shown)

  step-IsTrue :
      (event : Event) (v : Viewer)
      → IsInjective key_of project_id serve
      → IsTrue v
      → IsTrue (step key_of project_id serve event v)
  unfolding step on_read_failed IsShown
  step-IsTrue (listed files) v inj h = list_files-IsTrue files v h
  step-IsTrue (selected file) v inj h = list_files-IsTrue v.files _ (select-IsTrue file v h)
  step-IsTrue (revised r) v inj h = revise-IsTrue r v h
  step-IsTrue (answered now) v inj h = on_answer-IsTrue now v.pending v inj refl h
  step-IsTrue refused v inj h =
      if_keeps IsTrue (is_some v.pending)
        (settled-IsTrue v _ refl refl h.valid h.faithful refl (λ t. inr (inl refl))) h
  step-IsTrue (session token id) v inj h = same-IsTrue v _ refl refl refl refl refl h

  -- If the keys of the memory tell files apart, then from a state in which the memory holds what
  -- the server has, and whatever is selected, saved, answered or signed in to, in any order, the
  -- viewer never shows another file: the content is empty, the message of a failure, or what the
  -- server has, at some time, for the selected file at the revision on show.
  pub run-IsTrue :
      (events : List Event) (v : Viewer)
      → IsInjective key_of project_id serve
      → IsTrue v
      → IsTrue (run key_of project_id serve events v)
  unfolding run
  run-IsTrue [] v inj h = h
  run-IsTrue (event ∷ events) v inj h =
      run-IsTrue events (step key_of project_id serve event v) inj (step-IsTrue event v inj h)
