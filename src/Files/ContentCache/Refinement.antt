-- ===== src/Files/ContentCache/Refinement.antt =====
-- The cache against its specification: a map that may forget, but that never remembers wrongly.
use mathlib.Core.Option.{some-injective}
use webbuilder.Base.{
  subst, ◌≡◌, ◌≢◌, refl, sym, ap, ◌∙◌, String, Bool, true, false, Option, none, some, List, [], ◌∷◌,
  if◌then◌else◌, ◌==◌, eq_iff, ltb, arith, Bool-cases, inl, inr,
}
use webbuilder.Files.ContentCache.{
  SavedFileContent, Cache, entry_size_bytes, max_bytes, get_cached_file, cache_file,
}
use webbuilder.Files.ContentCache.Invariant.{IsValid, cache_file-IsValid}
use webbuilder.Files.ContentCache.Reads.{get_cached_file-cache_file}

pub data Write : Type 0 where
  write : (key : String) → (file : SavedFileContent) → Write

-- the specification: all that was written, the last write of a key first
abbrev pub Memory : Type 0
Memory = String → Option SavedFileContent

abbrev pub update : String → SavedFileContent → Memory → Memory
update key file m j = if key == j then some file else m j

unfoldable pub remember : List Write → Memory → Memory
remember [] m = m
remember (write key file ∷ writes) m = remember writes (update key file m)

-- the code: `none` where a `cacheFile` has thrown
abbrev pub cache_then : (Cache → Option Cache) → Option Cache → Option Cache
cache_then f none = none
cache_then f (some c) = f c

unfoldable pub cache_files : List Write → Cache → Option Cache
cache_files [] c = some c
cache_files (write key file ∷ writes) c = cache_then (cache_files writes) (cache_file key file c)

-- The cache is well formed, and what it holds is what the memory holds.
pub record Refines (m : Memory) (c : Cache) : Type 0 where
  pub valid : IsValid c
  pub agrees : (j : String) (v : SavedFileContent) → get_cached_file j c ≡ some v → m j ≡ some v

-- a file that is not too large is what is read
is_read :
    (large : Bool) (file v : SavedFileContent) (o : Option SavedFileContent)
    → o ≡ (if large then none else some file)
    → o ≡ some v
    → some file ≡ some v
is_read true file v o e g = absurd (ground (arith, e, g))
is_read false file v o e g = sym e ∙ g

update-agrees :
    (key : String) (file : SavedFileContent) (m : Memory) (c c' : Cache)
    → Refines m c
    → get_cached_file key c'
      ≡ (if ltb max_bytes (entry_size_bytes key file) then none else some file)
    → ((j : String) (v : SavedFileContent)
        → key ≢ j
        → get_cached_file j c' ≡ some v
        → get_cached_file j c ≡ some v)
    → (j : String) (v : SavedFileContent) → get_cached_file j c' ≡ some v
    → update key file m j ≡ some v
update-agrees key file m c c' h own others j v g = elim (Bool-cases (key == j)) [
  | inl t ↦
      let same = (eq_iff key j).0 t in
      rw t (is_read _ file v (get_cached_file key c') own (ap (λ k. get_cached_file k c') same ∙ g))
  | inr f ↦ rw f (h.agrees j v (others j v (λ e. ground (arith, f, (eq_iff key j).1 e)) g))
]

cache_file-Refines :
    (key : String) (file : SavedFileContent) (m : Memory) (c : Cache)
    → Refines m c
    → (c' : Cache) × (cache_file key file c ≡ some c') × Refines (update key file m) c'
cache_file-Refines key file m c h =
    let (c', done, own, others) = get_cached_file-cache_file key file c h.valid in
    let (c2, done2, valid) = cache_file-IsValid key file c h.valid in
    (
      c',
      done,
      record {
        valid = subst IsValid (some-injective c2 c' (sym done2 ∙ done)) valid;
        agrees = update-agrees key file m c c' h own others;
      },
    )

-- Whatever files are cached one after the other, under whatever keys, caching never throws, and
-- the cache refines the map that remembers every write: it stays well formed, and each file that
-- it still holds under a key is the one that was last written there.
pub cache_files-Refines :
    (writes : List Write) (m : Memory) (c : Cache)
    → Refines m c
    → (c' : Cache) × (cache_files writes c ≡ some c') × Refines (remember writes m) c'
unfolding cache_files remember
cache_files-Refines [] m c h = (c, refl, h)
cache_files-Refines (write key file ∷ writes) m c h =
    let (first, done, g) = cache_file-Refines key file m c h in
    let (last, rest, r) = cache_files-Refines writes (update key file m) first g in
    (last, ap (cache_then (cache_files writes)) done ∙ rest, r)
