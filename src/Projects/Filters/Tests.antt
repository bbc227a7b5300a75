-- ===== src/Projects/Filters/Tests.antt =====
-- Three projects, dates that are single digits, and texts that are compared by their lengths.
use webbuilder.Base.{
  ℕ, String, ◌≡◌, refl, List, [], ◌∷◌, Option, none, some, if◌then◌else◌, ◌==◌, utf16_length, trim,
}
use webbuilder.Projects.Filters.{
  Project, ProjectSort, ProjectPeriod, Sign, difference, is_shown, compare_projects, compare_dates,
  filter_projects, includes, place, sort_projects,
}

abbrev dates : String → Option ℕ
dates s = if s == "1" then some 1 else if s == "2" then some 2 else none

abbrev same : String → String
same s = s

abbrev by_length : String → String → Sign
by_length s t = difference (utf16_length s) (utf16_length t)

abbrev project : String → String → Project
project title created = record {
  id = title;
  user_id = 1;
  title = title;
  app_url = none;
  created_at = created;
  updated_at = none;
}

abbrev shop : Project
shop = project "shop" "1"

abbrev undated : Project
undated = project "shopping" "?"

abbrev blog : Project
blog = project "blog" "2"

abbrev bakeshop : Project
bakeshop = project "bakeshop" "2"

abbrev projects : List Project
projects = shop ∷ undated ∷ blog ∷ bakeshop ∷ []

newest_shops :
    filter_projects dates same by_length by_length projects " shop" ProjectSort.newest
      ProjectPeriod.all_time 2
    ≡ bakeshop ∷ shop ∷ undated ∷ []
unfolding filter_projects sort_projects is_shown includes trim place compare_projects compare_dates
newest_shops = refl
