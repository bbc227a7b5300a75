-- ===== src/Files/Viewer/Downloads.antt =====
-- The downloads of useFileViewer.ts. A blob that is saved goes into `saved` with its name, and a
-- notice of success into `notices`.
use webbuilder.Base.{
  String, Bool, true, false, Option, List, [], ◌∷◌, ◌++◌, if◌then◌else◌, or_else, truthy, is_empty,
  last?, concat,
}
use webbuilder.Files.Tree.{split_path}

pub record Downloads : Type 0 where
  pub is_downloading : Bool
  pub download_error : String
  pub saved : List String
  pub notices : List String

-- `selectedFile.split("/").pop() || "file.txt"`
unfoldable pub download_name : String → String
download_name path =
    let name = or_else (last? (split_path path)) "" in if is_empty name then "file.txt" else name

unfoldable pub handle_download_file : Option String → Downloads → Downloads
handle_download_file selected_file d =
    if truthy selected_file then record d { download_error = "" } else d

-- what follows the await; the answer is a failure or a blob
unfoldable pub on_file_blob : (path : String) → (is_blob : Bool) → Downloads → Downloads
on_file_blob path true d = record d {
  saved = d.saved ++ download_name path ∷ [];
  notices = d.notices ++ "File download started" ∷ [];
}
on_file_blob path false d = record d {
  download_error = "Could not download this file. Please try again.";
}

unfoldable pub handle_download_all : Downloads → Downloads
handle_download_all d = record d { is_downloading = true; download_error = "" }

unfoldable pub on_project_blob : (project_id : String) → (is_blob : Bool) → Downloads → Downloads
on_project_blob project_id true d = record d {
  saved = d.saved ++ concat project_id "-files.zip" ∷ [];
  notices = d.notices ++ "Project ZIP download started" ∷ [];
  is_downloading = false;
}
on_project_blob project_id false d = record d {
  download_error = "Could not download the project ZIP. Please try again.";
  is_downloading = false;
}
