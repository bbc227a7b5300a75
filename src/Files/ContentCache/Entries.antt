-- ===== src/Files/ContentCache/Entries.antt =====
-- Entries with distinct keys, their bytes, and what deleting and dropping the oldest do to them.
use webbuilder.Base.{
  ℕ, ◌+◌, ◌≤◌, String, ◌≡◌, ◌≢◌, refl, sym, none, some, [], ◌∷◌, ◌++◌, length, ◌==◌, eq_iff, All,
  arith, Bool-cases, inl, inr,
}
use webbuilder.Files.ContentCache.{SavedFileContent, Entries, entry_size_bytes, lookup, delete}

-- the bytes of all entries
unfoldable pub total : Entries → ℕ
total [] = 0
total ((k, file) ∷ rest) = entry_size_bytes k file + total rest

abbrev pub IsFresh : String → Entries → Type 0
IsFresh key = All (λ (e : String × SavedFileContent). e.0 ≢ key)

abbrev pub DistinctKeys : Entries → Type 0
DistinctKeys [] = Unit
DistinctKeys ((k, _) ∷ rest) = IsFresh k rest × DistinctKeys rest

IsFresh-delete : (j key : String) (l : Entries) → IsFresh j l → IsFresh j (delete key l)
unfolding delete
IsFresh-delete j key [] h = tt
IsFresh-delete j key ((k, f) ∷ l) (h, hs) = ground (arith, IsFresh-delete j key l hs)

pub DistinctKeys-delete :
    (key : String) (l : Entries) → DistinctKeys l → DistinctKeys (delete key l)
unfolding delete
DistinctKeys-delete key [] d = tt
DistinctKeys-delete key ((k, f) ∷ l) (h, d) =
    ground (arith, DistinctKeys-delete key l d, IsFresh-delete k key l h)

pub IsFresh-delete_self : (key : String) (l : Entries) → DistinctKeys l → IsFresh key (delete key l)
unfolding delete
IsFresh-delete_self key [] d = tt
IsFresh-delete_self key ((k, f) ∷ l) (h, d) = elim (Bool-cases (k == key)) [
  | inl own ↦ rw own (rw ((eq_iff k key).0 own) at h)
  | inr other ↦ rw other (ground (arith, eq_iff k key), IsFresh-delete_self key l d)
]

pub total-delete :
    (key : String) (l : Entries) (file : SavedFileContent)
    → lookup key l ≡ some file
    → total (delete key l) + entry_size_bytes key file ≡ total l
unfolding total delete lookup
total-delete key [] file h = cc
total-delete key ((k, f) ∷ l) file h = ground (arith, eq_iff k key, total-delete key l file)

pub length-delete-le : (key : String) (l : Entries) → length (delete key l) ≤ length l
unfolding delete
length-delete-le key [] = omega arith
length-delete-le key ((k, f) ∷ l) = ground (arith, length-delete-le key l)

pub total-append : (l m : Entries) → total (l ++ m) ≡ total l + total m
unfolding total
total-append [] m = omega arith
total-append ((k, f) ∷ l) m = omega (arith, total-append l m)

pub IsFresh-of_none : (key : String) (l : Entries) → lookup key l ≡ none → IsFresh key l
unfolding lookup
IsFresh-of_none key [] h = tt
IsFresh-of_none key ((k, f) ∷ l) h = ground (arith, eq_iff k key, IsFresh-of_none key l)

pub lookup_of_IsFresh : (key : String) (l : Entries) → IsFresh key l → lookup key l ≡ none
unfolding lookup
lookup_of_IsFresh key [] h = refl
lookup_of_IsFresh key ((k, f) ∷ l) (h, hs) =
    ground (arith, eq_iff k key, lookup_of_IsFresh key l hs)

IsFresh-append :
    (j key : String) (file : SavedFileContent) (l : Entries)
    → IsFresh j l
    → key ≢ j
    → IsFresh j (l ++ (key, file) ∷ [])
IsFresh-append j key file [] h ne = (ne, tt)
IsFresh-append j key file (e ∷ l) (h, hs) ne = (h, IsFresh-append j key file l hs ne)

pub DistinctKeys-append :
    (key : String) (file : SavedFileContent) (l : Entries)
    → DistinctKeys l
    → IsFresh key l
    → DistinctKeys (l ++ (key, file) ∷ [])
DistinctKeys-append key file [] d h = (tt, tt)
DistinctKeys-append key file ((k, f) ∷ l) (f', d) (h, hs) =
    (IsFresh-append k key file l f' (λ e. h (sym e)), DistinctKeys-append key file l d hs)
