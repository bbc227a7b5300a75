-- ===== src/Projects/Filters/Sorting.antt =====
-- What sorting by any comparison does to a list of projects.
use mathlib.Core.List.{Perm}
use mathlib.Core.List.Perm
use webbuilder.Base.{
  Bool, true, false, ◌≡◌, List, [], ◌∷◌, Bool-cases, inl, inr, arith, All, if_keeps,
}
use webbuilder.Projects.Filters.{Project, Sign, is_after, place, sort_projects}

-- only late ones follow a late one
unfoldable pub AreLateLast : (Project → Bool) → List Project → Type 0
AreLateLast is_late [] = Unit
AreLateLast is_late (x ∷ xs) =
    (is_late x ≡ true → All (λ y. is_late y ≡ true) xs) × AreLateLast is_late xs

module _ (compare : Project → Project → Sign) where
  place-IsPerm : (x : Project) (ys : List Project) → Perm (x ∷ ys) (place compare x ys)
  unfolding place
  place-IsPerm x [] = Perm.refl (x ∷ [])
  place-IsPerm x (y ∷ ys) = elim (Bool-cases (is_after (compare x y))) [
    | inl e ↦ rw e (Perm.trans (Perm.swap y x ys) (Perm.cons y (place-IsPerm x ys)))
    | inr e ↦ rw e (Perm.refl (x ∷ y ∷ ys))
  ]

  pub sort_projects-IsPerm : (xs : List Project) → Perm xs (sort_projects compare xs)
  unfolding sort_projects
  sort_projects-IsPerm [] = Perm.refl []
  sort_projects-IsPerm (x ∷ xs) =
      Perm.trans (Perm.cons x (sort_projects-IsPerm xs)) (place-IsPerm x (sort_projects compare xs))

  -- no project stands next before one that it should come after
  pub IsBefore : Project → List Project → Type 0
  IsBefore x [] = Unit
  IsBefore x (y ∷ ys) = is_after (compare x y) ≡ false

  pub IsOrdered : List Project → Type 0
  IsOrdered [] = Unit
  IsOrdered (x ∷ xs) = IsBefore x xs × IsOrdered xs

  module _
      (consistent : (x y : Project)
        → is_after (compare x y) ≡ true
        → is_after (compare y x) ≡ false) where
    place-IsBefore :
        (y x : Project) (ys : List Project)
        → is_after (compare y x) ≡ false
        → IsBefore y ys
        → IsBefore y (place compare x ys)
    unfolding place IsBefore
    place-IsBefore y x [] e h = e
    place-IsBefore y x (z ∷ zs) e h = if_keeps (IsBefore y) (is_after (compare x z)) h e

    place-IsOrdered :
        (x : Project) (ys : List Project) → IsOrdered ys → IsOrdered (place compare x ys)
    unfolding place IsBefore IsOrdered
    place-IsOrdered x [] h = (tt, tt)
    place-IsOrdered x (y ∷ ys) (b, h) = elim (Bool-cases (is_after (compare x y))) [
      | inl e ↦ rw e (place-IsBefore y x ys (consistent x y e) b, place-IsOrdered x ys h)
      | inr e ↦ rw e (e, (b, h))
    ]

    pub sort_projects-IsOrdered : (xs : List Project) → IsOrdered (sort_projects compare xs)
    unfolding sort_projects IsOrdered
    sort_projects-IsOrdered [] = tt
    sort_projects-IsOrdered (x ∷ xs) = place-IsOrdered x _ (sort_projects-IsOrdered xs)

  module _ (is_late : Project → Bool)
      (early_first : (x y : Project)
        → is_late x ≡ false
        → is_late y ≡ true
        → is_after (compare x y) ≡ false)
      (late_last : (x y : Project)
        → is_late x ≡ true
        → is_late y ≡ false
        → is_after (compare x y) ≡ true) where
    All-place :
        (x : Project) (ys : List Project)
        → is_late x ≡ true
        → All (λ y. is_late y ≡ true) ys
        → All (λ y. is_late y ≡ true) (place compare x ys)
    unfolding place
    All-place x [] h hs = (h, tt)
    All-place x (y ∷ ys) h (hy, hs) =
        if_keeps (All (λ z. is_late z ≡ true)) (is_after (compare x y)) (hy, All-place x ys h hs)
          (h, (hy, hs))

    place-AreLateLast :
        (x : Project) (ys : List Project)
        → AreLateLast is_late ys
        → AreLateLast is_late (place compare x ys)
    unfolding place AreLateLast
    place-AreLateLast x [] h = (λ l. tt, tt)
    place-AreLateLast x (y ∷ ys) (late, h) = elim (Bool-cases (is_after (compare x y))) [
      | inl e ↦ rw e (
        λ l. All-place x ys (ground (arith, early_first x y, l)) (late l),
        place-AreLateLast x ys h,
      )
      | inr e ↦ rw e (
        λ l. (ground (arith, late_last x y, l), late (ground (arith, late_last x y, l))),
        (late, h),
      )
    ]

    pub sort_projects-AreLateLast :
        (xs : List Project) → AreLateLast is_late (sort_projects compare xs)
    unfolding sort_projects AreLateLast
    sort_projects-AreLateLast [] = tt
    sort_projects-AreLateLast (x ∷ xs) = place-AreLateLast x _ (sort_projects-AreLateLast xs)
