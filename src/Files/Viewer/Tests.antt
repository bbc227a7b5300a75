-- ===== src/Files/Viewer/Tests.antt =====
-- A viewer of two files, with keys that spell out their parts.
use Prim.Native.Char.{code}
use text.Mathlib.TextLemmas.{cons-eq-cons, head-eq_of_cons-eq, tail-eq_of_cons-eq}
use webbuilder.Base.{
  ℕ, String, Bool, true, false, ◌≡◌, refl, ap, sym, ◌∙◌, Option, none, some, List, [], ◌∷◌, or_else,
  concat, utf16_length, arith, inl,
}
use webbuilder.Samples.{signed_in}
use webbuilder.Auth.Session.{get_session_id}
use webbuilder.Files.ContentCache.{
  SavedFileContent, get_cached_file, lookup, cache_file, append_entry, delete, drop_previous,
  entry_size_bytes, evict, is_full,
}
use webbuilder.Files.Viewer.{
  Viewer, Event, listed, selected, answered, step, run, list_files, select, open_selected,
  open_file, start_reading, key_for, has_slash, show, on_answer, on_read, show_kept, keep,
}
use webbuilder.Files.Viewer.Memory.{IsInjective, IsFaithful}
use webbuilder.Files.Viewer.Shown.{IsTrue, run-IsTrue}
use webbuilder.Files.Viewer.Downloads.{download_name}

-- each character marked, then a comma and what follows
unfoldable pub spell : String → String → String
spell String.[] rest = String.◌∷◌ "," rest
spell (String.◌∷◌ c s) rest = String.◌∷◌ "x" (String.◌∷◌ c (spell s rest))

abbrev key : (session_id project_id revision_id path : String) → String
key s p r f = spell s (spell r f)

abbrev serve :
    (now : ℕ) → (session_id revision_id : Option String) (path : String) → SavedFileContent
serve now s r path = record { content = some (concat "text of " path); binary = false }

spell_injective :
    (s s' rest rest' : String) → spell s rest ≡ spell s' rest' → (s ≡ s') × (rest ≡ rest')
unfolding spell
spell_injective String.[] String.[] rest rest' e = (refl, tail-eq_of_cons-eq e)
spell_injective String.[] (String.◌∷◌ c' s') rest rest' e =
    absurd (omega (arith, ap code (head-eq_of_cons-eq e)))
spell_injective (String.◌∷◌ c s) String.[] rest rest' e =
    absurd (omega (arith, ap code (head-eq_of_cons-eq e)))
spell_injective (String.◌∷◌ c s) (String.◌∷◌ c' s') rest rest' e =
    let marked = tail-eq_of_cons-eq e in
    let (same, after) = spell_injective s s' rest rest' (tail-eq_of_cons-eq marked) in
    (cons-eq-cons.1 (head-eq_of_cons-eq marked, same), after)

abbrev opened : Viewer
opened = record {
  files = [];
  revision_id = some "v1";
  selected_file = none;
  file_content = "";
  is_loading_file = false;
  binary = false;
  pending = none;
  browser = signed_in;
}

abbrev day : List Event
day =
    listed ("src/a.ts" ∷ "b.ts" ∷ [])
    ∷ selected (some "src/a.ts")
    ∷ answered 1
    ∷ selected (some "b.ts")
    ∷ answered 1
    ∷ []

day_shows : (run key "p" serve day opened).file_content ≡ "text of b.ts"
unfolding run step list_files select open_selected open_file start_reading key_for has_slash show
    on_answer on_read show_kept keep get_session_id get_cached_file lookup cache_file utf16_length
    append_entry delete drop_previous entry_size_bytes evict is_full spell
day_shows = refl

name_of_file : download_name "src/a.ts" ≡ "a.ts"
unfolding download_name webbuilder.Base.split_on
name_of_file = refl

key-IsInjective : IsInjective key "p" serve
unfolding IsInjective
key-IsInjective s r f s' r' f' e =
    let (es, rest) = spell_injective s s' _ _ e in
    let (er, ef) = spell_injective r r' f f' rest in (es, er, ef)

opened-IsTrue : IsTrue key "p" serve opened
unfolding IsFaithful get_cached_file lookup webbuilder.Files.ContentCache.Entries.total
opened-IsTrue = record {
  valid = record { distinct = tt; fits = omega arith; few = omega arith; counted = refl };
  faithful = λ s r f file e. cc;
  shown = λ t. cc;
  asked = λ p e. cc;
}

run-IsTrue_example : IsTrue key "p" serve (run key "p" serve day opened)
run-IsTrue_example = run-IsTrue key "p" serve day opened key-IsInjective opened-IsTrue
