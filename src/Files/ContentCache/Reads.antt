-- ===== src/Files/ContentCache/Reads.antt =====
-- What a reader finds after `cacheFile`.
use webbuilder.Base.{
  String, ◌≡◌, ◌≢◌, refl, none, some, [], ◌∷◌, ◌++◌, if◌then◌else◌, eq_iff, eq_refl, arith,
  Bool-cases, inl, inr, ltb, subst,
}
use webbuilder.Files.ContentCache.{
  SavedFileContent, Entries, Cache, entry_size_bytes, lookup, delete, drop_previous, max_bytes,
  append_entry, cache_file, get_cached_file,
}
use webbuilder.Files.ContentCache.Entries.{IsFresh, DistinctKeys, lookup_of_IsFresh}
use webbuilder.Files.ContentCache.Invariant.{IsValid, HasRoom, evict_lem, drop_previous-IsValid}

lookup-append_self :
    (key : String) (file : SavedFileContent) (l : Entries)
    → IsFresh key l
    → lookup key (l ++ (key, file) ∷ []) ≡ some file
unfolding lookup
lookup-append_self key file [] h = rw (eq_refl key)
lookup-append_self key file ((k, f) ∷ l) (h, hs) =
    ground (arith, eq_iff k key, lookup-append_self key file l hs)

lookup-append_ne :
    (key j : String) (file : SavedFileContent) (l : Entries)
    → key ≢ j
    → lookup j (l ++ (key, file) ∷ []) ≡ lookup j l
unfolding lookup
lookup-append_ne key j file [] h = ground (arith, eq_iff key j)
lookup-append_ne key j file ((k, f) ∷ l) h = ground (arith, lookup-append_ne key j file l h)

lookup-delete_ne : (key j : String) (l : Entries) → key ≢ j → lookup j (delete key l) ≡ lookup j l
unfolding lookup delete
lookup-delete_ne key j [] h = refl
lookup-delete_ne key j ((k, f) ∷ l) h =
    ground (arith, eq_iff k key, eq_iff k j, lookup-delete_ne key j l h)

lookup-drop_previous_ne :
    (key j : String) (c : Cache) → key ≢ j → lookup j (drop_previous key c).files ≡ lookup j c.files
unfolding drop_previous
lookup-drop_previous_ne key j c h = ground (arith, lookup-delete_ne key j c.files h)

IsFresh-of_head :
    (k j : String) (f : SavedFileContent) (l : Entries) → IsFresh k l → lookup j l ≡ some f → k ≢ j
IsFresh-of_head k j f l h e p = ground (arith, lookup_of_IsFresh k l h)

-- What is found behind dropped entries was found before.
lookup-suffix :
    (j : String) (gone l : Entries) {v : SavedFileContent}
    → DistinctKeys (gone ++ l)
    → lookup j l ≡ some v
    → lookup j (gone ++ l) ≡ some v
unfolding lookup
lookup-suffix j [] l d h = h
lookup-suffix j ((k, f) ∷ gone) l {v} (fresh, d) h =
    let ih = lookup-suffix j gone l d h in
    ground (arith, eq_iff k j, IsFresh-of_head k j v (gone ++ l) fresh ih)

IsFresh-suffix : (key : String) (gone l : Entries) → IsFresh key (gone ++ l) → IsFresh key l
IsFresh-suffix key [] l h = h
IsFresh-suffix key (e ∷ gone) l (h, hs) = IsFresh-suffix key gone l hs

found_before :
    (key j : String) (file v : SavedFileContent) (before : Entries) (kept : Cache)
    → DistinctKeys before
    → HasRoom (entry_size_bytes key file) before kept
    → key ≢ j
    → lookup j (append_entry key file kept).files ≡ some v
    → lookup j before ≡ some v
unfolding append_entry
found_before key j file v before kept d room ne h = rw room.suffix (
    lookup-suffix j room.dropped kept.files (subst DistinctKeys room.suffix d)
      (rw (lookup-append_ne key j file kept.files ne) at h))

-- After a file was cached under a key, the key gives that file, or nothing if the file alone
-- passes the bound; and what any other key gives, it gave before.
pub get_cached_file-cache_file :
    (key : String) (file : SavedFileContent) (c : Cache)
    → IsValid c
    → (c' : Cache) × (cache_file key file c ≡ some c')
      × (get_cached_file key c'
          ≡ (if ltb max_bytes (entry_size_bytes key file) then none else some file))
      × ((j : String) (v : SavedFileContent)
          → key ≢ j
          → get_cached_file j c' ≡ some v
          → get_cached_file j c ≡ some v)
unfolding cache_file get_cached_file
get_cached_file-cache_file key file c v =
    let (v', fresh) = drop_previous-IsValid key c v in
    let before = drop_previous key c in
    let size = entry_size_bytes key file in
    elim (Bool-cases (ltb max_bytes size)) [
      | inl large ↦ (
        before,
        rw large,
        rw large (lookup_of_IsFresh key before.files fresh),
        λ j w ne h. rw (lookup-drop_previous_ne key j c ne) at h,
      )
      | inr small ↦
          let (kept, done, room) =
            evict_lem size before.files before.cached_bytes (ground arith) v'.counted in
          let clear =
            IsFresh-suffix key room.dropped kept.files (subst (IsFresh key) room.suffix fresh) in
          (
            append_entry key file kept,
            rw (small, done),
            rw small (unfold append_entry in lookup-append_self key file kept.files clear),
            λ j w ne h.
                rw (← lookup-drop_previous_ne key j c ne)
                  (found_before key j file w before.files kept v'.distinct room ne h),
          )
    ]
