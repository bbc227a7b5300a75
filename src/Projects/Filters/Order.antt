-- ===== src/Projects/Filters/Order.antt =====
-- What `filterProjects` returns, and in which order.
use mathlib.Core.List.{Perm}
use webbuilder.Base.{
  ℕ, String, true, false, not, ◌≡◌, refl, List, Option, none, some, is_some, Bool-cases, inl, inr,
  arith, filter, trim,
}
use webbuilder.Projects.Filters.{
  Project, ProjectSort, ProjectPeriod, Sign, negative, zero, positive, negate, or_sign, difference,
  direct, is_after, is_shown, date_of, compare_dates, compare_projects, is_by_name, filter_projects,
}
use webbuilder.Projects.Filters.Sorting.{
  sort_projects-IsPerm, IsOrdered, sort_projects-IsOrdered, AreLateLast, sort_projects-AreLateLast,
}

pub difference-negate : (a b : ℕ) → difference b a ≡ negate (difference a b)
difference-negate a b = ground arith

direct-negate : (sort : ProjectSort) (s : Sign) → direct sort (negate s) ≡ negate (direct sort s)
direct-negate sort s = ground arith

or_sign-negate : (s t : Sign) → or_sign (negate s) (negate t) ≡ negate (or_sign s t)
or_sign-negate negative t = refl
or_sign-negate zero t = refl
or_sign-negate positive t = refl

compare_dates-negate :
    (sort : ProjectSort) (a b : Option ℕ) (tie : Sign)
    → compare_dates sort b a (negate tie) ≡ negate (compare_dates sort a b tie)
unfolding compare_dates
compare_dates-negate sort none none tie =
    ground (arith, direct-negate sort zero, or_sign-negate (direct sort zero) tie)
compare_dates-negate sort none (some b) tie = refl
compare_dates-negate sort (some a) none tie = refl
compare_dates-negate sort (some a) (some b) tie =
    rw (difference-negate a b, direct-negate sort (difference a b))
      (or_sign-negate (direct sort (difference a b)) tie)

unknown_after :
    (sort : ProjectSort) (a b : Option ℕ) (tie : Sign)
    → not (is_some a) ≡ false
    → not (is_some b) ≡ true
    → is_after (compare_dates sort a b tie) ≡ false
unfolding compare_dates
unknown_after sort a b tie e l = ground arith

unknown_late :
    (sort : ProjectSort) (a b : Option ℕ) (tie : Sign)
    → not (is_some a) ≡ true
    → not (is_some b) ≡ false
    → is_after (compare_dates sort a b tie) ≡ true
unfolding compare_dates
unknown_late sort a b tie l e = ground arith

module _ (parse_date : String → Option ℕ) (lower : String → String)
    (compare_titles compare_ids : String → String → Sign) where
  -- The projects that `filterProjects` returns are those that pass its test, each as often as it
  -- was given.
  pub filter_projects-IsPerm :
      (projects : List Project) (query : String) (sort : ProjectSort) (period : ProjectPeriod)
      (now : ℕ)
      → Perm (filter (is_shown parse_date lower (lower (trim query)) period now) projects) (
          filter_projects parse_date lower compare_titles compare_ids projects query sort period
            now)
  unfolding filter_projects
  filter_projects-IsPerm projects query sort period now = sort_projects-IsPerm _ _

  module _ (titles : (s t : String) → compare_titles t s ≡ negate (compare_titles s t))
      (ids : (s t : String) → compare_ids t s ≡ negate (compare_ids s t)) where
    compare_projects-negate :
        (sort : ProjectSort) (a b : Project)
        → compare_projects parse_date compare_titles compare_ids sort b a
          ≡ negate (compare_projects parse_date compare_titles compare_ids sort a b)
    unfolding compare_projects
    compare_projects-negate sort a b =
        rw
          (
            ids a.id b.id,
            titles a.title b.title,
            direct-negate sort (compare_titles a.title b.title),
          )
          (elim (Bool-cases (is_by_name sort)) [
            | inl e ↦ rw e (or_sign-negate _ _)
            | inr e ↦ rw e (compare_dates-negate sort _ _ _)
          ])

    -- If `localeCompare` gives the opposite sign for exchanged texts, no project that
    -- `filterProjects` returns stands directly before one that its comparison puts before it.
    pub filter_projects-IsOrdered :
        (projects : List Project) (query : String) (sort : ProjectSort) (period : ProjectPeriod)
        (now : ℕ)
        → IsOrdered (compare_projects parse_date compare_titles compare_ids sort) (
            filter_projects parse_date lower compare_titles compare_ids projects query sort period
              now)
    unfolding filter_projects
    filter_projects-IsOrdered projects query sort period now =
        sort_projects-IsOrdered _ (λ x y h. ground (arith, compare_projects-negate sort x y)) _

  -- Sorted by a date in either direction, the projects whose date cannot be read come last.
  pub filter_projects-AreLateLast :
      (projects : List Project) (query : String) (sort : ProjectSort) (period : ProjectPeriod)
      (now : ℕ)
      → is_by_name sort ≡ false
      → AreLateLast
          (λ p. not (is_some (date_of parse_date sort p)))
          (filter_projects parse_date lower compare_titles compare_ids projects query sort period
            now)
  unfolding filter_projects compare_projects
  filter_projects-AreLateLast projects query sort period now s =
      sort_projects-AreLateLast _ _
        (λ x y e l.
          rw s (unknown_after sort (date_of parse_date sort x) (date_of parse_date sort y) _ e l))
        (λ x y l e.
          rw s (unknown_late sort (date_of parse_date sort x) (date_of parse_date sort y) _ l e))
        _
