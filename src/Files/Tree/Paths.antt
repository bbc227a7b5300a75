-- ===== src/Files/Tree/Paths.antt =====
-- Where the files stand in a tree.
use webbuilder.Base.{
  String, Bool, true, false, ◌≡◌, refl, ◌∙◌, Option, none, some, List, [], ◌∷◌, if◌then◌else◌, ◌==◌,
  eq_iff, eq_refl, arith, Bool-cases, inl, inr,
}
use webbuilder.Files.Tree.{
  FileNode, node, absent, present, Nodes, nil, cons, name_of, with_children, find_node, push,
  replace_children, new_node, at_part, insert, is_last, extend,
}
use webbuilder.Files.Tree.Names.{name_of-with_children, eq-sym_false}

-- What a tree shows at a path: nothing, a file with the path that its node gives, or a directory;
-- `blocked` if a file stands on the way.
pub data View : Type 0 where
  missing : View
  leaf : String → View
  directory : View
  blocked : View

-- what a path shows at one level, where `deeper` is what its later parts show
unfoldable pub view_at : Bool → (Nodes → View) → Option FileNode → View
view_at last deeper none = missing
view_at true deeper (some (node name path d absent)) = leaf path
view_at true deeper (some (node name path d (present inside))) = directory
view_at false deeper (some (node name path d absent)) = blocked
view_at false deeper (some (node name path d (present inside))) = deeper inside

unfoldable pub view : List String → Nodes → View
view [] level = missing
view (part ∷ parts) level = view_at (is_last parts) (view parts) (find_node part level)

pub view-nil : (parts : List String) → view parts nil ≡ missing
unfolding view view_at find_node
view-nil [] = refl
view-nil (part ∷ parts) = refl

-- the path of the node that an insertion makes
unfoldable pub full_path : Bool → String → List String → String
full_path first path [] = path
full_path first path (part ∷ parts) = full_path false (extend first path part) parts

push-found :
    (new : FileNode) (level : Nodes)
    → find_node (name_of new) level ≡ none
    → find_node (name_of new) (push new level) ≡ some new
unfolding push find_node
push-found new nil f = rw (eq_refl (name_of new)) refl
push-found new (cons n level) f = ground (arith, push-found new level)

push-other :
    (x : String) (new : FileNode) (level : Nodes)
    → (name_of new == x) ≡ false
    → find_node x (push new level) ≡ find_node x level
unfolding push find_node
push-other x new nil d = rw d refl
push-other x new (cons n level) d = ground (arith, push-other x new level d)

replaced-found :
    (part : String) (inside level : Nodes) (n : FileNode)
    → find_node part level ≡ some n
    → find_node part (replace_children part inside level) ≡ some (with_children n inside)
unfolding replace_children find_node
replaced-found part inside nil n f = cc
replaced-found part inside (cons m level) n f =
    ground (arith, replaced-found part inside level n, name_of-with_children m inside)

replaced-other :
    (x part : String) (inside level : Nodes)
    → (part == x) ≡ false
    → find_node x (replace_children part inside level) ≡ find_node x level
unfolding replace_children find_node
replaced-other x part inside nil d = refl
replaced-other x part inside (cons m level) d = ground (
  arith,
  replaced-other x part inside level d,
  name_of-with_children m inside,
  eq_iff (name_of m) part,
  eq_iff (name_of m) x,
  eq_iff part x,
)

-- a file that the tree does not show, inserted
view-at_part_last :
    (part path : String) (deeper : Nodes → Nodes) (level : Nodes) (o : Option FileNode)
    → find_node part level ≡ o
    → view_at true (view []) o ≡ missing
    → view (part ∷ []) (at_part true part path deeper level o) ≡ leaf path
unfolding view view_at at_part
view-at_part_last part path deeper level none f v =
    rw (push-found (new_node true part path (deeper nil)) level f) refl
view-at_part_last part path deeper level (some (node n p d absent)) f v = cc
view-at_part_last part path deeper level (some (node n p d (present inside))) f v = cc

view-at_part :
    (part path full : String) (parts : List String) (deeper : Nodes → Nodes)
    → ((level : Nodes) → view parts level ≡ missing → view parts (deeper level) ≡ leaf full)
    → (level : Nodes) (o : Option FileNode) → find_node part level ≡ o
    → view_at false (view parts) o ≡ missing
    → view_at false (view parts) (find_node part (at_part false part path deeper level o))
      ≡ leaf full
unfolding view_at at_part
view-at_part part path full parts deeper shows level none f v =
    rw (push-found (new_node false part path (deeper nil)) level f) (shows nil (view-nil parts))
view-at_part part path full parts deeper shows level (some (node n p d absent)) f v = cc
view-at_part part path full parts deeper shows level (some (node n p d (present inside))) f v =
    rw (replaced-found part (deeper inside) level _ f) (shows inside v)

pub view-insert :
    (first : Bool) (path part : String) (parts : List String) (level : Nodes)
    → view (part ∷ parts) level ≡ missing
    → view (part ∷ parts) (insert first path (part ∷ parts) level)
      ≡ leaf (full_path first path (part ∷ parts))
unfolding view insert full_path
view-insert first path part [] level v =
    view-at_part_last part (extend first path part) _ level _ refl v
view-insert first path part (q ∷ parts) level v =
    view-at_part part (extend first path part) _ (q ∷ parts) _
      (view-insert false (extend first path part) q parts) level _ refl v

-- the paths part from each other: neither is the other's beginning
unfoldable pub apart : List String → List String → Bool
apart [] qs = false
apart (p ∷ ps) [] = false
apart (p ∷ ps) (q ∷ qs) = let rest = apart ps qs in if p == q then rest else true

apart-is_last :
    (ps qs : List String) → apart ps qs ≡ true → (is_last ps ≡ false) × (is_last qs ≡ false)
unfolding apart
apart-is_last [] qs h = cc
apart-is_last (p ∷ ps) [] h = cc
apart-is_last (p ∷ ps) (q ∷ qs) h = (refl, refl)

-- Other names of the level show what they did.
find_node-at_part :
    (x part path : String) (last : Bool) (deeper : Nodes → Nodes) (inner : Nodes → View)
    (level : Nodes) (o : Option FileNode)
    → (part == x) ≡ false
    → view_at last inner o ≡ missing
    → find_node x (at_part last part path deeper level o) ≡ find_node x level
unfolding view_at at_part
find_node-at_part x part path last deeper inner level none d v = push-other x _ level d
find_node-at_part x part path true deeper inner level (some n) d v = refl
find_node-at_part x part path false deeper inner level (some (node n p b absent)) d v = cc
find_node-at_part x part path false deeper inner level (some (node n p b (present inside))) d v =
    replaced-other x part (deeper inside) level d

-- So does the same name, if what the later parts do there does not show.
view_at-at_part :
    (part path : String) (ps qs : List String) (deeper : Nodes → Nodes)
    → ((level : Nodes) → view qs level ≡ missing → view ps (deeper level) ≡ view ps level)
    → (level : Nodes) (o : Option FileNode) → find_node part level ≡ o
    → view_at false (view qs) o ≡ missing
    → view_at false (view ps) (find_node part (at_part false part path deeper level o))
      ≡ view_at false (view ps) o
unfolding view_at at_part
view_at-at_part part path ps qs deeper same level none f v =
    rw (push-found (new_node false part path (deeper nil)) level f)
      (same nil (view-nil qs) ∙ view-nil ps)
view_at-at_part part path ps qs deeper same level (some (node n p b absent)) f v = cc
view_at-at_part part path ps qs deeper same level (some (node n p b (present inside))) f v =
    rw (replaced-found part (deeper inside) level _ f) (same inside v)

pub view-insert-apart :
    (first : Bool) (path : String) (ps qs : List String) (level : Nodes)
    → apart ps qs ≡ true
    → view qs level ≡ missing
    → view ps (insert first path qs level) ≡ view ps level
unfolding view insert apart
view-insert-apart first path [] qs level a v = cc
view-insert-apart first path (p ∷ ps) [] level a v = cc
view-insert-apart first path (p ∷ ps) (q ∷ qs) level a v = elim (Bool-cases (p == q)) [
  | inl e ↦
      let tails : apart ps qs ≡ true = ground arith in
      let (last, last') = apart-is_last ps qs tails in
      let here = extend first path q in
      rw (last, last', (eq_iff p q).0 e)
        (view_at-at_part q here ps qs (insert false here qs)
          (λ l. view-insert-apart false here ps qs l tails) level _ refl (rw last' at v))
  | inr e ↦
      rw
        (find_node-at_part p q (extend first path q) (is_last qs)
          (insert false (extend first path q) qs) (view qs) level (find_node q level)
          (eq-sym_false p q e) v)
        refl
]
