-- ===== src/Projects/Collection/View.antt =====
-- What ProjectCollection.tsx shows of the collection: the status line, and the skeleton, the
-- error, one of two empty pages, or the shelf.
use webbuilder.Base.{
  ℕ, String, List, [], ◌∷◌, Option, length, if◌then◌else◌, is_empty, number_text, concat, eqb,
}
use webbuilder.Projects.Filters.{Project, Sign, filter_projects}
use webbuilder.Projects.Collection.{Collection, narrowed}

pub data Body : Type 0 where
  skeleton : Body
  problem : String → Body
  no_match : Body
  no_project : Body
  shelf : List Project → Body

abbrev pub empty_body : List Project → Body
empty_body [] = no_project
empty_body (project ∷ projects) = no_match

abbrev pub list_body : (projects visible : List Project) → Body
list_body projects [] = empty_body projects
list_body projects (project ∷ visible) = shelf (project ∷ visible)

module _ (parse_date : String → Option ℕ) (lower : String → String)
    (compare_titles compare_ids : String → String → Sign) (now : ℕ) where
  unfoldable pub visible : Collection → List Project
  visible c =
      filter_projects parse_date lower compare_titles compare_ids c.projects c.query c.sort c.period
        now

  unfoldable pub status_text : Collection → String
  status_text c =
      if narrowed c
      then concat (number_text (length (visible c)))
          (concat " of " (concat (number_text (length c.projects)) " projects"))
      else concat (number_text (length c.projects))
          (concat " " (if eqb (length c.projects) 1 then "project" else "projects"))

  unfoldable pub body : Collection → Body
  body c =
      if c.loading
      then skeleton
      else if is_empty c.error
      then list_body c.projects (visible c)
      else problem c.error
