-- ===== src/Projects/Collection/Filtered.antt =====
-- Without a filter every project is on the shelf.
use mathlib.Core.List.{Perm}
use mathlib.Core.List.Perm
use text.Mathlib.TextLemmas.{nil-append}
use text.Mathlib.TextPositions.{starts_with_of_prefix}
use webbuilder.Base.{
  ℕ, String, Bool, true, false, not, ◌&&◌, ◌||◌, ◌≡◌, ◌≢◌, refl, sym, ap, ◌∙◌, subst, Option, List,
  [], ◌∷◌, filter, if◌then◌else◌, is_empty, trim, eq_iff, arith, Bool-cases, inl, inr, starts_with,
}
use webbuilder.Projects.Filters.{Project, ProjectPeriod, Sign, includes, is_shown}
use webbuilder.Projects.Filters.Order.{filter_projects-IsPerm}
use webbuilder.Projects.Collection.{Collection, narrowed, is_all_time, reset_filters}
use webbuilder.Projects.Collection.View.{
  Body, skeleton, problem, no_match, shelf, list_body, visible, body,
}

starts_with-nil : (s : String) → starts_with s "" ≡ true
starts_with-nil s = starts_with_of_prefix "" s (s, nil-append s)

includes-nil : (s : String) → includes s "" ≡ true
unfolding includes
includes-nil String.[] = refl
includes-nil (String.◌∷◌ c s) = ground (arith, starts_with-nil (String.◌∷◌ c s))

filter_all :
    (p : Project → Bool) (projects : List Project)
    → ((x : Project) → p x ≡ true)
    → filter p projects ≡ projects
filter_all p [] all = refl
filter_all p (x ∷ projects) all = rw (all x) (ap (λ t. x ∷ t) (filter_all p projects all))

module _ (parse_date : String → Option ℕ) (lower : String → String)
    (compare_titles compare_ids : String → String → Sign) (now : ℕ) where
  is_shown_all :
      (query : String) (period : ProjectPeriod) (p : Project)
      → lower "" ≡ ""
      → is_empty (trim query) ≡ true
      → is_all_time period ≡ true
      → is_shown parse_date lower (lower (trim query)) period now p ≡ true
  unfolding is_shown
  is_shown_all query ProjectPeriod.all_time p l e a =
      rw ((eq_iff (trim query) "").0 e, l, includes-nil (lower p.title)) refl
  is_shown_all query ProjectPeriod.week p l e a = ground (arith, a)
  is_shown_all query ProjectPeriod.month p l e a = ground (arith, a)

  -- Without a query and a period every project is shown, each as often as it is there.
  pub visible-IsPerm :
      (c : Collection)
      → lower "" ≡ ""
      → narrowed c ≡ false
      → Perm c.projects (visible parse_date lower compare_titles compare_ids now c)
  unfolding visible narrowed
  visible-IsPerm c l n =
      subst (λ xs. Perm xs (visible parse_date lower compare_titles compare_ids now c))
        (filter_all _ c.projects
          (λ p. is_shown_all c.query c.period p l (ground (arith, n)) (ground (arith, n))))
        (filter_projects-IsPerm parse_date lower compare_titles compare_ids c.projects c.query
          c.sort c.period now)

  list_body-no_match :
      (projects shown : List Project)
      → list_body projects shown ≡ no_match
      → (shown ≡ []) × (projects ≢ [])
  list_body-no_match [] [] e = absurd (ground (arith, e))
  list_body-no_match (x ∷ projects) [] e = (refl, λ n. ground (arith, n))
  list_body-no_match [] (y ∷ shown) e = absurd (ground (arith, e))
  list_body-no_match (x ∷ projects) (y ∷ shown) e = absurd (ground (arith, e))

  -- what a list is shown as
  list_body-shelf :
      (projects shown : List Project)
      → projects ≢ []
      → Perm projects shown
      → list_body projects shown ≡ shelf shown
  list_body-shelf projects [] n e = absurd (n (Perm.eq-nil e))
  list_body-shelf projects (x ∷ shown) n e = refl

  -- the page of a list that is there
  page-no_match :
      (loading fine : Bool) (list failure : Body)
      → (if loading then skeleton else if fine then list else failure) ≡ no_match
      → failure ≢ no_match
      → (loading ≡ false) × (fine ≡ true) × (list ≡ no_match)
  page-no_match true fine list failure e n = absurd (ground (arith, e))
  page-no_match false true list failure e n = (refl, refl, e)
  page-no_match false false list failure e n = absurd (n e)

  page_of_list :
      (loading fine : Bool) (list failure : Body)
      → loading ≡ false
      → fine ≡ true
      → (if loading then skeleton else if fine then list else failure) ≡ list
  page_of_list loading fine list failure l f = rw (l, f) refl

  -- If the empty text stays empty in lower case: when the page says that no project matches, there are projects and a filter hides them, and
  -- clearing the filters shows every project, each as often as it is there.
  pub body-no_match :
      (c : Collection)
      → lower "" ≡ ""
      → body parse_date lower compare_titles compare_ids now c ≡ no_match
      → (narrowed c ≡ true)
        × ((shown : List Project) × (body parse_date lower compare_titles compare_ids now
                (reset_filters c)
              ≡ shelf shown)
            × Perm c.projects shown)
  unfolding body narrowed reset_filters webbuilder.Base.trim
  body-no_match c l e =
      let (loaded, fine, none_shown) =
        page-no_match c.loading (is_empty c.error) _ (problem c.error) e (λ p. ground (arith, p)) in
      let (hidden, some_there) = list_body-no_match c.projects _ none_shown in
      let shown = visible-IsPerm (reset_filters c) l refl in
      (
        elim (Bool-cases (narrowed c)) [
          | inl t ↦ t
          | inr f ↦
              absurd
                (some_there (Perm.eq-nil (subst (Perm c.projects) hidden (visible-IsPerm c l f))))
        ],
        (
          visible parse_date lower compare_titles compare_ids now (reset_filters c),
          page_of_list c.loading (is_empty c.error) _ (problem c.error) loaded fine
              ∙ list_body-shelf c.projects _ some_there shown,
          shown,
        ),
      )
