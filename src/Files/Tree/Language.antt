-- ===== src/Files/Tree/Language.antt =====
-- `getLanguageFromPath` of frontend/lib/files/tree.ts. `lower` is `toLowerCase`. The table is an
-- object, and what every object inherits is left out.
use Prim.Native.Char.{Char}
use webbuilder.Base.{
  String, Bool, Option, none, some, if◌then◌else◌, ◌==◌, last?, or_else, split_on,
}

abbrev pub is_dot : Char → Bool
is_dot c = String.◌∷◌ c String.[] == "."

abbrev pub language_of : String → Option String
language_of ext =
    if ext == "js"
    then some "javascript"
    else if ext == "jsx"
    then some "javascript"
    else if ext == "ts"
    then some "typescript"
    else if ext == "tsx"
    then some "typescript"
    else if ext == "json"
    then some "json"
    else if ext == "html"
    then some "html"
    else if ext == "css"
    then some "css"
    else if ext == "scss"
    then some "scss"
    else if ext == "py"
    then some "python"
    else if ext == "md"
    then some "markdown"
    else if ext == "yml"
    then some "yaml"
    else if ext == "yaml"
    then some "yaml"
    else if ext == "xml"
    then some "xml"
    else if ext == "sh"
    then some "shell"
    else none

unfoldable pub get_language_from_path : (lower : String → String) → String → String
get_language_from_path lower file_path =
    let ext = lower (or_else (last? (split_on is_dot file_path)) "") in
    or_else (language_of ext) "plaintext"
