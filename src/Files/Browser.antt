-- ===== src/Files/Browser.antt =====
-- What is shown of the files: frontend/components/files/FileViewer.tsx, FileTreeNode.tsx and
-- FileIcon.tsx over `useFileViewer` and `buildFileTree`. `lower` is `toLowerCase`.
mod Sources
pub mod Listed
mod Tests
use webbuilder.Base.{
  String, Bool, true, false, Option, none, some, List, [], ◌∷◌, ◌++◌, length, eqb, if◌then◌else◌,
  or_else, truthy, last?, split_on, concat, number_text, ◌==◌,
}
use webbuilder.Files.Tree.{
  FileNode, node, Children, absent, present, Nodes, nil, cons, build_file_tree,
}
use webbuilder.Files.Tree.Language.{get_language_from_path, is_dot}
use webbuilder.Files.Viewer.{Viewer}

mutual
  pub data Entry : Type 0 where
    file_entry : (value name : String) → Entry
    folder_entry : (value name : String) → Entries → Entry

  pub data Entries : Type 0 where
    end : Entries
    entry : Entry → Entries → Entries

-- `FileTreeNode`
unfoldable mutual
  pub show_node : FileNode → Entry
  show_node (node name path false children) = file_entry path name
  show_node (node name path true absent) = folder_entry path name end
  show_node (node name path true (present inside)) = folder_entry path name (show_nodes inside)

  pub show_nodes : Nodes → Entries
  show_nodes nil = end
  show_nodes (cons n level) = entry (show_node n) (show_nodes level)

unfoldable pub entries : List String → Entries
entries files = show_nodes (build_file_tree files)

-- `initialExpandedItems`: the directories of the first level
unfoldable pub initial_expanded : Nodes → List String
initial_expanded nil = []
initial_expanded (cons (node name path is_directory children) level) =
    let rest = initial_expanded level in if is_directory then path ∷ rest else rest

unfoldable pub count_text : List String → String
count_text files =
    concat (number_text (length files)) (concat " file" (if eqb (length files) 1 then "" else "s"))

abbrev pub color_of : String → Option String
color_of ext =
    if ext == "tsx"
    then some "text-accent-foreground"
    else if ext == "ts"
    then some "text-accent-foreground"
    else if ext == "jsx"
    then some "text-cyan-400"
    else if ext == "js"
    then some "text-yellow-400"
    else if ext == "css"
    then some "text-pink-400"
    else if ext == "json"
    then some "text-green-400"
    else if ext == "html"
    then some "text-orange-400"
    else if ext == "md"
    then some "text-gray-400"
    else if ext == "py"
    then some "text-blue-300"
    else none

-- `FileIcon`
unfoldable pub icon_color : (lower : String → String) → String → String
icon_color lower filename =
    or_else (color_of (lower (or_else (last? (split_on is_dot filename)) "")))
      "text-muted-foreground"

pub data Area : Type 0 where
  nothing_selected reading binary_note : Area
  editor : (language value : String) → Area

unfoldable pub area : (lower : String → String) → Viewer → Area
area lower v =
    if truthy v.selected_file
    then if v.is_loading_file
      then reading
      else if v.binary
      then binary_note
      else editor (get_language_from_path lower (or_else v.selected_file "")) v.file_content
    else nothing_selected

pub data Panel : Type 0 where
  no_files : Panel
  browser : (count : String) → Entries → (expanded : List String) → Area → Panel

unfoldable pub panel : (lower : String → String) → Viewer → Panel
panel lower v =
    if eqb (length v.files) 0
    then no_files
    else browser (count_text v.files) (entries v.files) (initial_expanded (build_file_tree v.files))
        (area lower v)

-- the paths that a click on a file of the tree selects
unfoldable mutual
  pub entry_paths : Entry → List String
  entry_paths (file_entry value name) = value ∷ []
  entry_paths (folder_entry value name inside) = file_paths inside

  pub file_paths : Entries → List String
  file_paths end = []
  file_paths (entry e rest) = entry_paths e ++ file_paths rest
