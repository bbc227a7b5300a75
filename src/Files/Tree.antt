-- ===== src/Files/Tree.antt =====
-- `buildFileTree` of frontend/lib/files/tree.ts and `FileNode` of frontend/types/file.type.ts.
-- The code appends to arrays that are reached from the root; here an insertion gives the new
-- array, with the node on the way to it replaced.
pub mod Names
pub mod Paths
pub mod Shown
pub mod Language
mod Tests
use Prim.Native.Char.{Char}
use Prim.Native.String
use webbuilder.Base.{
  String, Bool, true, false, not, Option, none, some, List, [], ◌∷◌, if◌then◌else◌, ◌==◌, concat,
  split_on,
}

mutual
  pub data FileNode : Type 0 where
    node : (name path : String) → (is_directory : Bool) → Children → FileNode

  -- `children?: FileNode[]`
  pub data Children : Type 0 where
    absent : Children
    present : Nodes → Children

  pub data Nodes : Type 0 where
    nil : Nodes
    cons : FileNode → Nodes → Nodes

abbrev pub name_of : FileNode → String
name_of (node name path d c) = name

abbrev pub with_children : FileNode → Nodes → FileNode
with_children (node name path d c) level = node name path d (present level)

abbrev pub is_slash : Char → Bool
is_slash c = String.◌∷◌ c String.[] == "/"

-- `filePath.split("/")`
abbrev pub split_path : String → List String
split_path s = split_on is_slash s

-- `currentLevel.find((node) => node.name === part)`
unfoldable pub find_node : String → Nodes → Option FileNode
find_node part nil = none
find_node part (cons n level) =
    let rest = find_node part level in if name_of n == part then some n else rest

-- `currentLevel.push(node)`
unfoldable pub push : FileNode → Nodes → Nodes
push new nil = cons new nil
push new (cons n level) = cons n (push new level)

-- the first node of that name, with other children
unfoldable pub replace_children : String → Nodes → Nodes → Nodes
replace_children part children nil = nil
replace_children part children (cons n level) =
    let rest = replace_children part children level in
    if name_of n == part then cons (with_children n children) level else cons n rest

abbrev pub is_last : List String → Bool
is_last [] = true
is_last (part ∷ parts) = false

-- `(index === 0 ? "" : "/") + part`, after the path so far
abbrev pub extend : Bool → String → String → String
extend true path part = concat path part
extend false path part = concat path (concat "/" part)

-- the node that is made for a part, with what the later parts put into it
abbrev pub new_node : Bool → String → String → Nodes → FileNode
new_node last part path inside = node part path (not last) (if last then absent else present inside)

-- what a part does at its level, where `deeper` is what the later parts do at theirs. A node
-- without children leaves the level as it is, so the later parts stay on it.
unfoldable pub at_part : Bool → String → String → (Nodes → Nodes) → Nodes → Option FileNode → Nodes
at_part last part path deeper level none = push (new_node last part path (deeper nil)) level
at_part true part path deeper level (some n) = level
at_part false part path deeper level (some (node name p d absent)) = deeper level
at_part false part path deeper level (some (node name p d (present inside))) =
    replace_children part (deeper inside) level

unfoldable pub insert : Bool → String → List String → Nodes → Nodes
insert first path [] level = level
insert first path (part ∷ parts) level =
    let here = extend first path part in
    at_part (is_last parts) part here (insert false here parts) level (find_node part level)

unfoldable pub insert_all : List String → Nodes → Nodes
insert_all [] root = root
insert_all (file ∷ files) root = insert_all files (insert true "" (split_path file) root)

unfoldable pub build_file_tree : List String → Nodes
build_file_tree files = insert_all files nil
