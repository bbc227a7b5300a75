-- ===== src/Files/Tree/Tests.antt =====
-- The tree of a small project, and of a file that lies in another.
use webbuilder.Base.{String, concat, ◌≡◌, refl, true, false, List, [], ◌∷◌, All}
use webbuilder.Files.Tree.{
  node, absent, present, Nodes, nil, cons, build_file_tree, insert_all, insert, at_part, find_node,
  push, replace_children,
}
use webbuilder.Files.Tree.Language.{get_language_from_path}

abbrev project : List String
project = "src/App.tsx" ∷ "index.html" ∷ "src/main.tsx" ∷ []

abbrev tree : Nodes
tree =
    cons
      (node "src" "src" true (
        present (
          cons (node "App.tsx" "src/App.tsx" false absent)
            (cons (node "main.tsx" "src/main.tsx" false absent) nil))))
      (cons (node "index.html" "index.html" false absent) nil)

small_project : build_file_tree project ≡ tree
unfolding build_file_tree insert_all insert webbuilder.Base.split_on at_part find_node push
    replace_children
small_project = refl

-- a file below a file goes to the level of that file
below_a_file :
    build_file_tree ("a" ∷ "a/b" ∷ [])
    ≡ cons (node "a" "a" false absent) (cons (node "b" "a/b" false absent) nil)
unfolding build_file_tree insert_all insert webbuilder.Base.split_on at_part find_node push
below_a_file = refl

language : get_language_from_path (λ s. s) "src/App.test.tsx" ≡ "typescript"
unfolding get_language_from_path webbuilder.Base.split_on
language = refl
