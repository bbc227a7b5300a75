-- ===== src/Files/ContentCache/Invariant.antt =====
-- `cacheFile` never fails on a valid cache, and keeps it valid: the byte count is exact, and the
-- bounds on files and bytes hold.
use webbuilder.Base.{
  ℕ, ◌+◌, ◌-◌, ◌≤◌, ◌<◌, String, ◌≡◌, refl, ap, some, [], ◌∷◌, ◌++◌, length, arith, length-append,
  Bool-cases, Option-cases, inl, inr, ltb, subst,
}
use webbuilder.Files.ContentCache.{
  SavedFileContent, Entries, Cache, entry_size_bytes, lookup, drop_previous, evict, is_full,
  max_bytes, max_files, append_entry, cache_file,
}
use webbuilder.Files.ContentCache.Entries.{
  total, IsFresh, DistinctKeys, DistinctKeys-delete, IsFresh-delete_self, total-delete,
  length-delete-le, total-append, IsFresh-of_none, DistinctKeys-append,
}

pub record IsValid (c : Cache) : Type 0 where
  pub counted : c.cached_bytes ≡ total c.files
  pub few : length c.files ≤ max_files
  pub fits : total c.files ≤ max_bytes
  pub distinct : DistinctKeys c.files

pub drop_previous-IsValid :
    (key : String) (c : Cache)
    → IsValid c
    → IsValid (drop_previous key c) × IsFresh key (drop_previous key c).files
unfolding drop_previous
drop_previous-IsValid key c v = elim (Option-cases (lookup key c.files)) [
  | inl absent ↦ rw (absent, drop_previous) (v, IsFresh-of_none key c.files absent)
  | inr (file, found) ↦
      let sizes = total-delete key c.files file found in
      rw (found, drop_previous)
        (
          record {
            counted = omega arith;
            few = omega (arith, length-delete-le key c.files);
            fits = omega arith;
            distinct = DistinctKeys-delete key c.files v.distinct;
          },
          IsFresh-delete_self key c.files v.distinct,
        )
]

-- What the loop leaves: a suffix of the entries, with room for one more.
pub record HasRoom (entry_bytes : ℕ) (before : Entries) (c : Cache) : Type 0 where
  pub counted : c.cached_bytes ≡ total c.files
  pub few : length c.files < max_files
  pub fits : total c.files + entry_bytes ≤ max_bytes
  pub dropped : Entries
  pub suffix : before ≡ dropped ++ c.files

pub evict_lem :
    (entry_bytes : ℕ) (l : Entries) (bytes : ℕ)
    → entry_bytes ≤ max_bytes
    → bytes ≡ total l
    → (c : Cache) × (evict entry_bytes l bytes ≡ some c) × HasRoom entry_bytes l c
unfolding evict is_full total
evict_lem n [] bytes fits h = (
  record { files = []; cached_bytes = bytes },
  ground arith,
  record { counted = h; few = omega arith; fits = omega arith; dropped = []; suffix = refl },
)
evict_lem n ((k, f) ∷ l) bytes fits h = elim (Bool-cases (is_full n ((k, f) ∷ l) bytes)) [
  | inl full ↦
      let (c, done, room) = evict_lem n l (bytes - entry_size_bytes k f) fits (omega arith) in
      (
        c,
        rw (full, evict) done,
        record {
          counted = room.counted;
          few = room.few;
          fits = room.fits;
          dropped = (k, f) ∷ room.dropped;
          suffix = ap (◌∷◌ (k, f)) room.suffix;
        },
      )
  | inr room ↦ (
    record { files = (k, f) ∷ l; cached_bytes = bytes },
    rw (room, evict) refl,
    record { counted = h; few = ground arith; fits = ground arith; dropped = []; suffix = refl },
  )
]

DistinctKeys-suffix : (gone l : Entries) → DistinctKeys (gone ++ l) → DistinctKeys l
DistinctKeys-suffix [] l d = d
DistinctKeys-suffix ((k, f) ∷ gone) l (h, d) = DistinctKeys-suffix gone l d

IsFresh-suffix : (key : String) (gone l : Entries) → IsFresh key (gone ++ l) → IsFresh key l
IsFresh-suffix key [] l h = h
IsFresh-suffix key (e ∷ gone) l (h, hs) = IsFresh-suffix key gone l hs

append_entry-IsValid :
    (key : String) (file : SavedFileContent) (before : Entries) (c : Cache)
    → DistinctKeys before
    → IsFresh key before
    → HasRoom (entry_size_bytes key file) before c
    → IsValid (append_entry key file c)
unfolding append_entry total
append_entry-IsValid key file before c d fresh room =
    let sum = total-append c.files ((key, file) ∷ []) in
    record {
      counted = omega arith;
      few = omega (arith, length-append {0} c.files ((key, file) ∷ []));
      fits = omega arith;
      distinct =
          DistinctKeys-append key file c.files
            (DistinctKeys-suffix room.dropped c.files (subst DistinctKeys room.suffix d))
            (IsFresh-suffix key room.dropped c.files (subst (IsFresh key) room.suffix fresh));
    }

-- On a valid cache `cacheFile` does not fail, and the cache stays valid: its byte count is the sum
-- of its entries' sizes, it has at most 64 files and 2 MiB, and no key twice.
pub cache_file-IsValid :
    (key : String) (file : SavedFileContent) (c : Cache)
    → IsValid c
    → (c' : Cache) × (cache_file key file c ≡ some c') × IsValid c'
unfolding cache_file
cache_file-IsValid key file c v =
    let (v', fresh) = drop_previous-IsValid key c v in
    let before = drop_previous key c in
    elim (Bool-cases (ltb max_bytes (entry_size_bytes key file))) [
      | inl large ↦ (before, rw large, v')
      | inr small ↦
          let (kept, done, room) =
            evict_lem (entry_size_bytes key file) before.files before.cached_bytes (ground arith)
              v'.counted in
          (
            append_entry key file kept,
            rw (small, done),
            append_entry-IsValid key file before.files kept v'.distinct fresh room,
          )
    ]
