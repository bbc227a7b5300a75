-- ===== src/Files/Tree/Names.antt =====
-- The shape of a tree: every level names each of its nodes once, and exactly the directories have
-- children.
use webbuilder.Base.{
  String, Bool, true, false, ◌≡◌, refl, Option, none, some, List, [], ◌∷◌, ◌==◌, eq_iff, arith,
  Bool-cases, inl, inr,
}
use webbuilder.Files.Tree.{
  FileNode, node, absent, present, Nodes, nil, cons, name_of, with_children, find_node, push,
  replace_children, at_part, insert, insert_all, build_file_tree, is_last,
}

abbrev mutual
  pub IsFormed : Nodes → Type 0
  IsFormed nil = Unit
  IsFormed (cons n level) = (find_node (name_of n) level ≡ none) × (IsFormedNode n × IsFormed level)

  pub IsFormedNode : FileNode → Type 0
  IsFormedNode (node name path d absent) = d ≡ false
  IsFormedNode (node name path d (present level)) = (d ≡ true) × IsFormed level

pub find_node-push :
    (x : String) (new : FileNode) (level : Nodes)
    → (name_of new == x) ≡ false
    → find_node x level ≡ none
    → find_node x (push new level) ≡ none
unfolding find_node push
find_node-push x new nil d h = rw d refl
find_node-push x new (cons n level) d h = ground (arith, find_node-push x new level d)

-- a name that no node of the level has, seen from the first node
unfound-cons :
    (x : String) (n : FileNode) (level : Nodes)
    → find_node x (cons n level) ≡ none
    → ((name_of n == x) ≡ false) × (find_node x level ≡ none)
unfolding find_node
unfound-cons x n level h = (ground arith, ground arith)

pub eq-sym_false : (x y : String) → (x == y) ≡ false → (y == x) ≡ false
eq-sym_false x y h = ground (arith, eq_iff x y, eq_iff y x)

push-IsFormed :
    (new : FileNode) (level : Nodes)
    → find_node (name_of new) level ≡ none
    → IsFormedNode new
    → IsFormed level
    → IsFormed (push new level)
unfolding push find_node
push-IsFormed new nil f w h = (refl, (w, tt))
push-IsFormed new (cons n level) f w (d, (wn, h)) =
    let (other, rest) = unfound-cons (name_of new) n level f in
    (
      find_node-push (name_of n) new level (eq-sym_false (name_of n) (name_of new) other) d,
      (wn, push-IsFormed new level rest w h),
    )

pub name_of-with_children :
    (n : FileNode) (inside : Nodes) → name_of (with_children n inside) ≡ name_of n
name_of-with_children (node name path d c) inside = refl

find_node-replace_children :
    (x part : String) (inside level : Nodes)
    → find_node x level ≡ none
    → find_node x (replace_children part inside level) ≡ none
unfolding find_node replace_children
find_node-replace_children x part inside nil h = refl
find_node-replace_children x part inside (cons n level) h =
    ground (arith, find_node-replace_children x part inside level, name_of-with_children n inside)

pub first-found :
    (part : String) (m n : FileNode) (level : Nodes)
    → find_node part (cons m level) ≡ some n
    → (name_of m == part) ≡ true
    → m ≡ n
unfolding find_node
first-found part m n level f e = ground arith

-- the node that an insertion passes is a directory
replace_children-IsFormed :
    (part : String) (inside level : Nodes) (n : FileNode)
    → find_node part level ≡ some n
    → IsFormedNode (with_children n inside)
    → IsFormed level
    → IsFormed (replace_children part inside level)
unfolding replace_children find_node
replace_children-IsFormed part inside nil n f w h = tt
replace_children-IsFormed part inside (cons m level) n f w (d, (wm, h)) =
    elim (Bool-cases (name_of m == part)) [
      | inl e ↦
          rw (e, name_of-with_children m inside) (d, (rw (first-found part m n level f e) w, h))
      | inr e ↦ rw e (
        find_node-replace_children (name_of m) part inside level d,
        (wm, replace_children-IsFormed part inside level n (ground arith) w h),
      )
    ]

pub found-IsFormedNode :
    (part : String) (level : Nodes) (n : FileNode)
    → find_node part level ≡ some n
    → IsFormed level
    → IsFormedNode n
unfolding find_node
found-IsFormedNode part nil n f h = cc
found-IsFormedNode part (cons m level) n f (d, (wm, h)) = elim (Bool-cases (name_of m == part)) [
  | inl e ↦ rw⁻¹ (first-found part m n level f e) wm
  | inr e ↦ found-IsFormedNode part level n (ground arith) h
]

-- what an insertion does at one level
at_part-IsFormed :
    (last : Bool) (part path : String) (deeper : Nodes → Nodes)
    → ((level : Nodes) → IsFormed level → IsFormed (deeper level))
    → (level : Nodes) (o : Option FileNode) → find_node part level ≡ o
    → IsFormed level
    → IsFormed (at_part last part path deeper level o)
unfolding at_part
at_part-IsFormed true part path deeper keeps level none f h = push-IsFormed _ level f refl h
at_part-IsFormed false part path deeper keeps level none f h =
    push-IsFormed _ level f (refl, keeps nil tt) h
at_part-IsFormed true part path deeper keeps level (some n) f h = h
at_part-IsFormed false part path deeper keeps level (some (node name p d absent)) f h =
    keeps level h
at_part-IsFormed false part path deeper keeps level (some (node name p d (present inside))) f h =
    let (is_directory, formed) = found-IsFormedNode part level _ f h in
    replace_children-IsFormed part (deeper inside) level _ f (is_directory, keeps inside formed) h

insert-IsFormed :
    (first : Bool) (path : String) (parts : List String) (level : Nodes)
    → IsFormed level
    → IsFormed (insert first path parts level)
unfolding insert
insert-IsFormed first path [] level h = h
insert-IsFormed first path (part ∷ parts) level h =
    at_part-IsFormed (is_last parts) part _ _ (insert-IsFormed false _ parts) level _ refl h

insert_all-IsFormed :
    (files : List String) (root : Nodes) → IsFormed root → IsFormed (insert_all files root)
unfolding insert_all
insert_all-IsFormed [] root h = h
insert_all-IsFormed (file ∷ files) root h =
    insert_all-IsFormed files _ (insert-IsFormed true "" _ root h)

-- In the tree of any list of paths, no two nodes of one level have the same name, and exactly the
-- nodes that are marked as directories have children.
pub build_file_tree-IsFormed : (files : List String) → IsFormed (build_file_tree files)
unfolding build_file_tree
build_file_tree-IsFormed files = insert_all-IsFormed files nil tt
