-- ===== src/Files/Viewer/Memory.antt =====
-- The memory of the viewer holds what the server has.
use mathlib.Core.Option.{some-injective}
use webbuilder.Base.{
  ℕ, subst, String, Bool, true, false, ◌&&◌, ◌≡◌, ◌≢◌, refl, sym, ◌∙◌, ap, inl, inr, Option, none,
  some, if◌then◌else◌, truthy, ◌==◌, eq_iff, arith, Bool-cases,
}
use webbuilder.Files.ContentCache.{SavedFileContent, Cache, get_cached_file}
use webbuilder.Files.ContentCache.Invariant.{IsValid, cache_file-IsValid}
use webbuilder.Files.ContentCache.Reads.{get_cached_file-cache_file}
use webbuilder.Files.Viewer.{key_for, cached, keep}

module _ (key_of : (session_id project_id revision_id path : String) → String) (project_id : String)
    (serve : (now : ℕ)
      → (session_id revision_id : Option String) (path : String) → SavedFileContent) where
  -- Every file in the memory is what the server has for its key, at some time.
  unfoldable pub IsFaithful : Cache → Type 0
  IsFaithful c =
      (s r f : String) (file : SavedFileContent)
      → get_cached_file (key_of s project_id r f) c ≡ some file
      → (now : ℕ) × (file ≡ serve now (some s) (some r) f)

  pub cached-IsFaithful :
      (c : Cache) (s r : Option String) (f : String) (file : SavedFileContent)
      → IsFaithful c
      → cached key_of project_id (key_for key_of project_id s r f) c ≡ some file
      → (now : ℕ) × (file ≡ serve now s r f)
  unfolding key_for IsFaithful
  cached-IsFaithful c none r f file h e = cc
  cached-IsFaithful c (some s) none f file h e = ground arith
  cached-IsFaithful c (some s) (some r) f file h e = ground (arith, h s r f file)

  -- `JSON.stringify` gives different texts for different parts.
  unfoldable pub IsInjective : Type 0
  IsInjective =
      (s r f s' r' f' : String)
      → key_of s project_id r f ≡ key_of s' project_id r' f'
      → (s ≡ s') × (r ≡ r') × (f ≡ f')

  kept-IsFaithful :
      (c d : Cache) (now : ℕ) (s r f : String) (large : Bool)
      → IsInjective
      → IsFaithful c
      → get_cached_file (key_of s project_id r f) d
        ≡ (if large then none else some (serve now (some s) (some r) f))
      → ((j : String) (file : SavedFileContent)
          → key_of s project_id r f ≢ j
          → get_cached_file j d ≡ some file
          → get_cached_file j c ≡ some file)
      → IsFaithful d
  unfolding IsFaithful IsInjective
  kept-IsFaithful c d now s r f large inj h own others s' r' f' file g =
      let key = key_of s project_id r f in
      let key' = key_of s' project_id r' f' in
      elim (Bool-cases (key == key')) [
        | inl same ↦
            let e = (eq_iff key key').0 same in
            let (es, er, ef) = inj s r f s' r' f' e in
            let found : get_cached_file key d ≡ some file = ap (λ k. get_cached_file k d) e ∙ g in
            rw⁻¹ (es, er, ef) (now, own_file large (sym found ∙ own))
        | inr other ↦ h s' r' f' file (others key' file (λ e. ground (arith, eq_iff key key')) g)
      ]
    where
      own_file :
          {file x : SavedFileContent} (b : Bool)
          → some file ≡ (if b then none else some x)
          → file ≡ x
      own_file true e = cc
      own_file false e = cc

  and-false : (b : Bool) → b && false ≡ false
  and-false true = refl
  and-false false = refl

  kept_none :
      (c c' : Cache) (file : SavedFileContent)
      → IsValid c
      → IsFaithful c
      → keep none file c ≡ some c'
      → IsValid c' × IsFaithful c'
  unfolding keep
  kept_none c c' file v h e =
      (subst IsValid (some-injective c c' e) v, subst IsFaithful (some-injective c c' e) h)

  cache_file-IsFaithful :
      (c c' : Cache) (now : ℕ) (s r f : String)
      → IsInjective
      → IsValid c
      → IsFaithful c
      → keep (some (key_of s project_id r f)) (serve now (some s) (some r) f) c ≡ some c'
      → IsValid c' × IsFaithful c'
  unfolding keep
  cache_file-IsFaithful c c' now s r f inj v h e =
      let key = key_of s project_id r f in
      let (d, made, own, others) =
        get_cached_file-cache_file key (serve now (some s) (some r) f) c v in
      let (d', made', valid) = cache_file-IsValid key (serve now (some s) (some r) f) c v in
      (
        subst IsValid (some-injective d' c' (sym made' ∙ e)) valid,
        subst IsFaithful (some-injective d c' (sym made ∙ e))
            (kept-IsFaithful c d now s r f _ inj h own others),
      )

  pub keep-IsFaithful :
      (c c' : Cache) (now : ℕ) (s r : Option String) (f : String)
      → IsInjective
      → IsValid c
      → IsFaithful c
      → keep (key_for key_of project_id s r f) (serve now s r f) c ≡ some c'
      → IsValid c' × IsFaithful c'
  unfolding key_for
  keep-IsFaithful c c' now none r f inj v h e = kept_none c c' (serve now none r f) v h e
  keep-IsFaithful c c' now (some s) none f inj v h e =
      elim (Bool-cases (truthy (some s) && false)) [
        | inl t ↦ cc (t, and-false (truthy (some s)))
        | inr t ↦ kept_none c c' (serve now (some s) none f) v h (rw t at e)
      ]
  keep-IsFaithful c c' now (some s) (some r) f inj v h e =
      elim (Bool-cases (truthy (some s) && truthy (some r))) [
        | inl t ↦ cache_file-IsFaithful c c' now s r f inj v h (rw t at e)
        | inr t ↦ kept_none c c' (serve now (some s) (some r) f) v h (rw t at e)
      ]
