-- ===== src/Files/ContentCache.antt =====
-- frontend/lib/files/contentCache.ts: saved files, kept in memory up to a number of files and of
-- bytes, the oldest entry dropped first. The `Map` is a list in its order of insertion.
-- `cachedBytes` never falls below 0 in a valid cache, so the truncated `-` is exact.
pub mod Entries
pub mod Invariant
pub mod Reads
pub mod Refinement
mod Tests
use webbuilder.Base.{
  ℕ, ◌+◌, ◌-◌, ◌*◌, String, Bool, true, false, ◌||◌, Option, none, some, List, [], ◌∷◌, ◌++◌,
  length, if◌then◌else◌, ◌==◌, leb, ltb, utf16_length,
}

pub record SavedFileContent : Type 0 where
  pub content : Option String
  pub binary : Bool

abbrev pub Entries : Type 0
Entries = List (String × SavedFileContent)

pub record Cache : Type 0 where
  pub files : Entries
  pub cached_bytes : ℕ

abbrev pub max_bytes : ℕ
max_bytes = 2 * 1024 * 1024

abbrev pub max_files : ℕ
max_files = 64

unfoldable pub entry_size_bytes : String → SavedFileContent → ℕ
entry_size_bytes key file =
    (utf16_length key + (elim file.content [ none ↦ 0 | some text ↦ utf16_length text ])) * 2

unfoldable pub clear_file_content_cache : Cache → Cache
clear_file_content_cache c = record { files = []; cached_bytes = 0 }

unfoldable pub lookup : String → Entries → Option SavedFileContent
lookup key [] = none
lookup key ((k, file) ∷ rest) = if k == key then some file else lookup key rest

unfoldable pub get_cached_file : String → Cache → Option SavedFileContent
get_cached_file key c = lookup key c.files

-- `Map.delete`
unfoldable pub delete : String → Entries → Entries
delete key [] = []
delete key ((k, file) ∷ rest) = if k == key then rest else (k, file) ∷ delete key rest

-- the entry that the key had gives up its place and its bytes
unfoldable pub drop_previous : String → Cache → Cache
drop_previous key c = elim (lookup key c.files) [
  | none ↦ c
  | some previous ↦ record {
    files = delete key c.files;
    cached_bytes = c.cached_bytes - entry_size_bytes key previous;
  }
]

-- the test of the `while` loop
unfoldable pub is_full : ℕ → Entries → ℕ → Bool
is_full entry_bytes files bytes =
    leb max_files (length files) || ltb max_bytes (bytes + entry_bytes)

-- The loop. `none` is the failure of the destructuring when no entry is left.
unfoldable pub evict : ℕ → Entries → ℕ → Option Cache
evict entry_bytes [] bytes =
    if is_full entry_bytes [] bytes
    then none
    else some (record { files = []; cached_bytes = bytes })
evict entry_bytes ((k, oldest) ∷ rest) bytes =
    let next = evict entry_bytes rest (bytes - entry_size_bytes k oldest) in
    if is_full entry_bytes ((k, oldest) ∷ rest) bytes
    then next
    else some (record { files = (k, oldest) ∷ rest; cached_bytes = bytes })

-- `files.set` on a key that is not in the map, and the bytes that it adds
unfoldable pub append_entry : String → SavedFileContent → Cache → Cache
append_entry key file c = record {
  files = c.files ++ (key, file) ∷ [];
  cached_bytes = c.cached_bytes + entry_size_bytes key file;
}

unfoldable pub cache_file : String → SavedFileContent → Cache → Option Cache
cache_file key file c =
    let c = drop_previous key c in
    let entry_bytes = entry_size_bytes key file in
    if ltb max_bytes entry_bytes then some c else elim (evict entry_bytes c.files c.cached_bytes) [
      | none ↦ none
      | some kept ↦ some (append_entry key file kept)
    ]
