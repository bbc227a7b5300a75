-- ===== src/Files/Browser/Tests.antt =====
-- The files of a small project, one of which is read.
use webbuilder.Base.{String, ◌≡◌, refl, true, false, contains, none, some, List, [], ◌∷◌}
use webbuilder.Files.Viewer.{Viewer}
use webbuilder.Files.Browser.{
  editor, reading, area, count_text, icon_color, entries, file_paths, initial_expanded,
}
use webbuilder.Files.Browser.Listed.{contains-entries}
use webbuilder.Files.Tree.{build_file_tree, split_path}
use webbuilder.Files.Tree.Paths.{apart}
use webbuilder.Samples.{signed_in}

abbrev project : List String
project = "src/App.tsx" ∷ "index.html" ∷ "src/main.tsx" ∷ []

abbrev same : String → String
same s = s

abbrev viewer : Viewer
viewer = record {
  files = project;
  revision_id = some "r1";
  selected_file = some "src/App.tsx";
  file_content = "export";
  is_loading_file = false;
  binary = false;
  pending = none;
  browser = signed_in;
}

in_the_editor : area same viewer ≡ editor "typescript" "export"
unfolding area webbuilder.Files.Tree.Language.get_language_from_path webbuilder.Base.split_on
in_the_editor = refl

offered_files : file_paths (entries project) ≡ ("src/App.tsx" ∷ "src/main.tsx" ∷ "index.html" ∷ [])
unfolding file_paths entries webbuilder.Files.Browser.show_nodes build_file_tree
    webbuilder.Files.Tree.insert_all webbuilder.Files.Tree.insert webbuilder.Base.split_on
    webbuilder.Files.Tree.at_part webbuilder.Files.Tree.find_node webbuilder.Files.Tree.push
    webbuilder.Files.Tree.replace_children
offered_files = refl

open_at_first : initial_expanded (build_file_tree project) ≡ ("src" ∷ [])
unfolding initial_expanded build_file_tree webbuilder.Files.Tree.insert_all
    webbuilder.Files.Tree.insert webbuilder.Base.split_on webbuilder.Files.Tree.at_part
    webbuilder.Files.Tree.find_node webbuilder.Files.Tree.push
    webbuilder.Files.Tree.replace_children
open_at_first = refl

three_files : count_text project ≡ "3 files"
unfolding count_text webbuilder.Base.number_text
three_files = refl

script_icon : icon_color same "a.b.py" ≡ "text-blue-300"
unfolding icon_color webbuilder.Base.split_on
script_icon = refl

contains-entries_example :
    contains (file_paths (entries project)) "index.html" ≡ contains project "index.html"
unfolding apart webbuilder.Base.split_on
contains-entries_example =
    contains-entries project ((refl, (refl, tt)), ((refl, tt), (tt, tt))) "index.html"
