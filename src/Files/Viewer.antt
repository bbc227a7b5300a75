-- ===== src/Files/Viewer.antt =====
-- `useFileViewer` of frontend/hooks/files/useFileViewer.ts for one project, on the content cache.
-- A request that was sent and not aborted is `pending`; an effect aborts the one before it. The
-- server's answers are a function of what is asked and of the time. `key_of` is `JSON.stringify` of the four
-- texts, which is never empty.
pub mod Downloads
pub mod Memory
pub mod Shown
mod Tests
use Prim.Native.Char.{Char}
use Prim.Native.String
use webbuilder.Base.{
  ℕ, String, Bool, true, false, not, ◌&&◌, ◌||◌, Option, none, some, List, [], ◌∷◌, any, find,
  if◌then◌else◌, is_some, or_else, truthy, same_text, ◌==◌,
}
use webbuilder.Auth.Session.{Browser, get_session_id}
use webbuilder.Files.ContentCache.{SavedFileContent, Cache, get_cached_file, cache_file}
use webbuilder.Files.Tree.{is_slash}

-- what the effect has captured
pub record Pending : Type 0 where
  pub session_id : Option String
  pub key : Option String
  pub revision_id : Option String
  pub path : String

pub record Viewer : Type 0 where
  pub files : List String
  pub revision_id : Option String
  pub selected_file : Option String
  pub file_content : String
  pub is_loading_file : Bool
  pub binary : Bool
  pub pending : Option Pending
  pub browser : Browser

abbrev pub failure : String
failure = "Saved file could not be loaded. Try again."

abbrev pub text_of : SavedFileContent → String
text_of file = or_else file.content ""

unfoldable pub show : SavedFileContent → Viewer → Viewer
show file v = record v { binary = file.binary; file_content = text_of file }

-- `.finally`
abbrev pub settled : Viewer → Viewer
settled v = record v { is_loading_file = false; pending = none }

unfoldable pub has_slash : String → Bool
has_slash String.[] = false
has_slash (String.◌∷◌ c s) = is_slash c || has_slash s

abbrev pub first_of : List String → Option String
first_of [] = none
first_of (file ∷ files) = some file

-- a file that is in the memory is shown, any other is asked for
unfoldable pub start_reading : Pending → Option SavedFileContent → Viewer → Viewer
start_reading p (some file) v = settled (show file v)
start_reading p none v = record v {
  is_loading_file = true;
  binary = false;
  file_content = "";
  pending = some p;
}

module _ (key_of : (session_id project_id revision_id path : String) → String)
    (project_id : String) where
  unfoldable pub key_for : Option String → Option String → String → Option String
  key_for session_id revision_id path =
      if truthy session_id && truthy revision_id
      then some (key_of (or_else session_id "") project_id (or_else revision_id "") path)
      else none

  abbrev pub cached : Option String → Cache → Option SavedFileContent
  cached none c = none
  cached (some key) c = get_cached_file key c

  -- the effect for a file, after the cleanup of the one before
  unfoldable pub open_file : String → Viewer → Viewer
  open_file path v =
      let session_id = get_session_id v.browser in
      let key = key_for session_id v.revision_id path in
      start_reading
        (record { session_id = session_id; key = key; revision_id = v.revision_id; path = path })
        (cached key v.browser.cache) v

  unfoldable pub open_selected : Option String → Viewer → Viewer
  open_selected file v =
      let q = record v { pending = none } in
      if truthy file then open_file (or_else file "") q else q

  -- the selection and the revision are what the effect depends on
  unfoldable pub select : Option String → Viewer → Viewer
  select file v =
      if same_text file v.selected_file
      then v
      else open_selected file (record v { selected_file = file })

  unfoldable pub revise : Option String → Viewer → Viewer
  revise revision_id v =
      if same_text revision_id v.revision_id
      then v
      else open_selected v.selected_file (record v { revision_id = revision_id })

  -- the effect that selects a first file
  unfoldable pub list_files : List String → Viewer → Viewer
  list_files files v =
      let q = record v { files = files } in
      let top = find (λ f. not (has_slash f)) files in
      if truthy v.selected_file && any (λ g. g == or_else v.selected_file "") files
      then q
      else select (if truthy top then top else first_of files) q

-- `if (key) cacheFile(key, data)`; `none` where the cache throws
unfoldable pub keep : Option String → SavedFileContent → Cache → Option Cache
keep none file c = some c
keep (some key) file c = cache_file key file c

-- the end of `.then` or, where the cache has thrown, `.catch`
unfoldable pub show_kept : SavedFileContent → Option Cache → Viewer → Viewer
show_kept file none v = settled (record v { file_content = failure })
show_kept file (some c) v =
    settled (show file (record v { browser = record v.browser { cache = c } }))

unfoldable pub on_read : Pending → SavedFileContent → Viewer → Viewer
on_read p file v =
    if same_text (get_session_id v.browser) p.session_id
    then show_kept file (keep p.key file v.browser.cache) v
    else settled v

unfoldable pub on_read_failed : Viewer → Viewer
on_read_failed v = settled (record v { file_content = failure })

pub data Event : Type 0 where
  listed : List String → Event
  selected : Option String → Event
  revised : Option String → Event
  -- the answer, as the server has the files at that time
  answered : (now : ℕ) → Event
  refused : Event
  -- another login, or a login of another tab, keeps the memory of this one or clears it
  session : (auth_token auth_session_id : Option String) → Event

module _ (key_of : (session_id project_id revision_id path : String) → String) (project_id : String)
    (serve : (now : ℕ)
      → (session_id revision_id : Option String) (path : String) → SavedFileContent) where
  unfoldable pub on_answer : (now : ℕ) → Option Pending → Viewer → Viewer
  on_answer now none v = v
  on_answer now (some p) v = on_read p (serve now p.session_id p.revision_id p.path) v

  unfoldable pub step : Event → Viewer → Viewer
  step (listed files) v = list_files key_of project_id files v
  -- the other effect sees a new selection too
  step (selected file) v = list_files key_of project_id v.files (select key_of project_id file v)
  step (revised revision_id) v = revise key_of project_id revision_id v
  step (answered now) v = on_answer now v.pending v
  step refused v = if is_some v.pending then on_read_failed v else v
  step (session token id) v = record v {
    browser = record v.browser { auth_token = token; auth_session_id = id };
  }

  unfoldable pub run : List Event → Viewer → Viewer
  run [] v = v
  run (event ∷ events) v = run events (step event v)
