-- ===== src/Projects/Filters.antt =====
-- `filterProjects` of frontend/lib/projects/filters.ts. `Date.parse`, `toLocaleLowerCase` and the
-- two uses of `localeCompare` are arguments. A date is a number of milliseconds from 1970 on, and
-- `none` where `Date.parse` gives NaN; so a cutoff before 1970 is 0.
pub mod Sorting
pub mod Order
mod Tests
use Prim.Native.Char.{Char}
use Prim.Native.String
use webbuilder.Base.{
  ℕ, ◌-◌, ◌*◌, String, Bool, true, false, not, ◌&&◌, ◌||◌, Option, none, some, List, [], ◌∷◌,
  if◌then◌else◌, filter, trim, truthy, or_else, ltb, leb, starts_with,
}

-- frontend/types/project.type.ts
pub record Project : Type 0 where
  pub id : String
  pub user_id : ℕ
  pub title : String
  pub app_url : Option String
  pub created_at : String
  pub updated_at : Option String

pub data ProjectSort : Type 0 where
  recent newest oldest name_asc name_desc : ProjectSort

pub data ProjectPeriod : Type 0 where
  all_time week month : ProjectPeriod

-- the sign of what a comparison function returns
pub data Sign : Type 0 where
  negative zero positive : Sign

abbrev pub negate : Sign → Sign
negate negative = positive
negate zero = zero
negate positive = negative

-- `order || other`
abbrev pub or_sign : Sign → Sign → Sign
or_sign zero other = other
or_sign negative other = negative
or_sign positive other = positive

-- the sign of `first - second`
abbrev pub difference : ℕ → ℕ → Sign
difference first second =
    if ltb first second then negative else if ltb second first then positive else zero

abbrev pub days : ProjectPeriod → ℕ
days all_time = 0
days week = 7
days month = 30

-- `String.includes`
unfoldable pub includes : String → String → Bool
includes String.[] search = starts_with "" search
includes (String.◌∷◌ c s) search = starts_with (String.◌∷◌ c s) search || includes s search

abbrev pub is_within : ℕ → ℕ → Option ℕ → Bool
is_within cutoff now none = false
is_within cutoff now (some created) = leb cutoff created && leb created now

abbrev pub direct : ProjectSort → Sign → Sign
direct oldest order = order
direct name_asc order = order
direct _ order = negate order

-- Unknown dates follow known dates; the identities decide where nothing else does.
unfoldable pub compare_dates : ProjectSort → Option ℕ → Option ℕ → Sign → Sign
compare_dates sort (some first) none tie = negative
compare_dates sort none (some second) tie = positive
compare_dates sort none none tie = or_sign (direct sort zero) tie
compare_dates sort (some first) (some second) tie =
    or_sign (direct sort (difference first second)) tie

abbrev pub is_by_name : ProjectSort → Bool
is_by_name name_asc = true
is_by_name name_desc = true
is_by_name _ = false

module _ (parse_date : String → Option ℕ) where
  abbrev pub date_of : ProjectSort → Project → Option ℕ
  date_of recent p =
      parse_date (if truthy p.updated_at then or_else p.updated_at "" else p.created_at)
  date_of _ p = parse_date p.created_at

  unfoldable pub is_shown : (lower : String → String) → String → ProjectPeriod → ℕ → Project → Bool
  is_shown lower search period now p =
      let created = parse_date p.created_at in
      let recent_enough = is_within (now - days period * 86400000) now created in
      if not (includes (lower p.title) search)
      then false
      else elim period [ ProjectPeriod.all_time ↦ true | _ ↦ recent_enough ]

  unfoldable pub compare_projects :
      (compare_titles compare_ids : String → String → Sign) → ProjectSort → Project → Project → Sign
  compare_projects compare_titles compare_ids sort a b =
      let tie = compare_ids a.id b.id in
      if is_by_name sort
      then or_sign (direct sort (compare_titles a.title b.title)) tie
      else compare_dates sort (date_of sort a) (date_of sort b) tie

-- `Array.sort`, which is stable
abbrev pub is_after : Sign → Bool
is_after positive = true
is_after _ = false

module _ (compare : Project → Project → Sign) where
  unfoldable pub place : Project → List Project → List Project
  place x [] = x ∷ []
  place x (y ∷ ys) =
      let rest = place x ys in if is_after (compare x y) then y ∷ rest else x ∷ y ∷ ys

  unfoldable pub sort_projects : List Project → List Project
  sort_projects [] = []
  sort_projects (x ∷ xs) = place x (sort_projects xs)

module _ (parse_date : String → Option ℕ) (lower : String → String)
    (compare_titles compare_ids : String → String → Sign) where
  unfoldable pub filter_projects :
      List Project → String → ProjectSort → ProjectPeriod → ℕ → List Project
  filter_projects projects query sort period now =
      let search = lower (trim query) in
      sort_projects (compare_projects parse_date compare_titles compare_ids sort)
        (filter (is_shown parse_date lower search period now) projects)
