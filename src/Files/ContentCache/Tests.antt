-- ===== src/Files/ContentCache/Tests.antt =====
-- The cache on small inputs.
use webbuilder.Base.{◌≡◌, refl, false, none, some, [], ◌∷◌, arith}
use webbuilder.Files.ContentCache.{
  SavedFileContent, Cache, entry_size_bytes, lookup, get_cached_file, cache_file, drop_previous,
  evict, is_full, append_entry,
}
use webbuilder.Files.ContentCache.Invariant.{IsValid, cache_file-IsValid}
use webbuilder.Files.ContentCache.Entries.{total}
use webbuilder.Base.{utf16_length}
use webbuilder.Files.ContentCache.Refinement.{
  write, remember, cache_files, Refines, cache_files-Refines,
}

abbrev readme : SavedFileContent
readme = record { content = some "Hello"; binary = false }

abbrev empty : Cache
empty = record { files = []; cached_bytes = 0 }

empty-IsValid : IsValid empty
unfolding total
empty-IsValid = record { counted = refl; few = omega arith; fits = omega arith; distinct = tt }

-- eleven units, two bytes each
cached_bytes_readme :
    cache_file "README" readme empty
    ≡ some (record { files = ("README", readme) ∷ []; cached_bytes = 22 })
unfolding cache_file drop_previous lookup evict is_full append_entry entry_size_bytes utf16_length
cached_bytes_readme = refl

cache_file-IsValid_example : (c : Cache) × (cache_file "README" readme empty ≡ some c) × IsValid c
cache_file-IsValid_example = cache_file-IsValid "README" readme empty empty-IsValid

cache_files-Refines_example :
    (c : Cache) × (cache_files
        (write "a" readme ∷ write "a" (record readme { content = none }) ∷ [])
        empty
      ≡ some c)
    × Refines
        (remember
          (write "a" readme ∷ write "a" (record readme { content = none }) ∷ [])
          (λ j. none))
        c
unfolding get_cached_file lookup
cache_files-Refines_example =
    cache_files-Refines (write "a" readme ∷ write "a" (record readme { content = none }) ∷ [])
      (λ j. none) empty (record { valid = empty-IsValid; agrees = λ j v e. e })
