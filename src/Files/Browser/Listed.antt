-- ===== src/Files/Browser/Listed.antt =====
-- Which files the tree offers.
use webbuilder.Base.{
  String, Bool, true, false, ◌||◌, ◌≡◌, refl, sym, ◌∙◌, subst, Option, none, some, List, [], ◌∷◌,
  ◌++◌, All, contains, ◌==◌, eq_refl, eq_iff, Bool-cases, inl, inr, arith,
}
use webbuilder.Files.Tree.{
  FileNode, node, absent, present, Nodes, nil, cons, name_of, find_node, build_file_tree, is_last,
  split_path,
}
use webbuilder.Files.Tree.Names.{
  IsFormed, build_file_tree-IsFormed, found-IsFormedNode, first-found,
}
use webbuilder.Files.Tree.Paths.{leaf, view, view_at}
use webbuilder.Files.Tree.Shown.{AreApart, view-build_file_tree}
use webbuilder.Files.Browser.{show_node, show_nodes, entries, entry_paths, file_paths}
use webbuilder.Files.Browser.Sources.{insert_all-AllFiles, offered}

contains-append :
    (xs ys : List String) (x : String) → contains (xs ++ ys) x ≡ contains xs x || contains ys x
contains-append [] ys x = refl
contains-append (y ∷ xs) ys x = ground (arith, contains-append xs ys x)

found-offered :
    (part path : String) (level : Nodes) (n : FileNode)
    → find_node part level ≡ some n
    → contains (entry_paths (show_node n)) path ≡ true
    → contains (file_paths (show_nodes level)) path ≡ true
unfolding find_node show_nodes file_paths
found-offered part path nil n f h = cc
found-offered part path (cons m level) n f h =
    contains-append (entry_paths (show_node m)) (file_paths (show_nodes level)) path
    ∙ elim (Bool-cases (name_of m == part)) [
      | inl e ↦ rw (first-found part m n level f e, h) refl
      | inr e ↦ ground (arith, found-offered part path level n (rw e at f) h)
    ]

-- A formed level offers the files that it shows.
at-offered :
    (part : String) (parts : List String) (path : String) (level : Nodes)
    → ((inside : Nodes)
        → IsFormed inside
        → view parts inside ≡ leaf path
        → contains (file_paths (show_nodes inside)) path ≡ true)
    → (last : Bool) (o : Option FileNode) → find_node part level ≡ o
    → IsFormed level
    → view_at last (view parts) o ≡ leaf path
    → contains (file_paths (show_nodes level)) path ≡ true
unfolding view_at show_nodes file_paths
at-offered part parts path level deeper last none f h v = cc
at-offered part parts path level deeper true (some (node name q true absent)) f h v =
    absurd (ground (arith, found-IsFormedNode part level _ f h))
at-offered part parts path level deeper true (some (node name q false absent)) f h v =
    found-offered part path level _ f (ground (arith, v, eq_iff q path))
at-offered part parts path level deeper false (some (node name q d absent)) f h v = cc
at-offered part parts path level deeper true (some (node name q d (present inside))) f h v = cc
at-offered part parts path level deeper false (some (node name q false (present inside))) f h v =
    absurd (ground (arith, (found-IsFormedNode part level _ f h).0))
at-offered part parts path level deeper false (some (node name q true (present inside))) f h v =
    found-offered part path level _ f (deeper inside (found-IsFormedNode part level _ f h).1 v)

view-offered :
    (parts : List String) (path : String) (level : Nodes)
    → IsFormed level
    → view parts level ≡ leaf path
    → contains (file_paths (show_nodes level)) path ≡ true
unfolding view
view-offered [] path level h v = cc
view-offered (part ∷ parts) path level h v =
    at-offered part parts path level (view-offered parts path) (is_last parts)
      (find_node part level) refl h v

-- A predicate of all members holds of each.
member :
    (P : String → Type 0) (xs : List String) (x : String) → All P xs → contains xs x ≡ true → P x
member P [] x h c = absurd (ground (arith, c))
member P (y ∷ xs) x (p, h) c = elim (Bool-cases (y == x)) [
  | inl e ↦ subst P ((eq_iff y x).0 e) p
  | inr e ↦ member P xs x h (rw e at c)
]

same_truth : (a b : Bool) → (a ≡ true → b ≡ true) → (b ≡ true → a ≡ true) → a ≡ b
same_truth true b f g = sym (f refl)
same_truth false true f g = g refl
same_truth false false f g = refl

All-weaken :
    {P Q : String → Type 0} (xs : List String) → ((x : String) → P x → Q x) → All P xs → All Q xs
All-weaken [] f h = tt
All-weaken (x ∷ xs) f (p, h) = (f x p, All-weaken xs f h)

All-contains : (xs : List String) → All (λ x. contains xs x ≡ true) xs
All-contains [] = tt
All-contains (x ∷ xs) =
    (ground (arith, eq_refl x), All-weaken xs (λ z h. ground (arith, h)) (All-contains xs))

offered-listed :
    (files : List String) → All (λ path. contains files path ≡ true) (file_paths (entries files))
unfolding entries build_file_tree
offered-listed files = offered _ _ (insert_all-AllFiles _ files nil (All-contains files) tt)

listed-offered :
    (files : List String)
    → AreApart files
    → All (λ path. contains (file_paths (entries files)) path ≡ true) files
unfolding entries
listed-offered files p =
    All-weaken files
      (λ path v.
        view-offered (split_path path) path (build_file_tree files) (build_file_tree-IsFormed files)
          v)
      (view-build_file_tree files p)

-- The tree of a list of files, of which no two have the same path and none lies in a directory
-- with the path of another, offers exactly these files: a click on one of its files selects a file
-- of the list, and each file of the list can be selected so.
pub contains-entries :
    (files : List String)
    → AreApart files
    → (path : String) → contains (file_paths (entries files)) path ≡ contains files path
contains-entries files p path =
    same_truth _ _
      (member (λ x. contains files x ≡ true) (file_paths (entries files)) path
        (offered-listed files))
      (member (λ x. contains (file_paths (entries files)) x ≡ true) files path
        (listed-offered files p))
