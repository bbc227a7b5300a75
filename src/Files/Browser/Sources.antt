-- ===== src/Files/Browser/Sources.antt =====
-- Where the paths come from that the tree offers.
use mathlib.Core.Option.{some-injective}
use text.Mathlib.TextLemmas.{nil-append}
use webbuilder.Base.{
  String, Bool, true, false, ◌≡◌, refl, sym, ◌∙◌, subst, Option, none, some, List, [], ◌∷◌, ◌++◌,
  All, ◌==◌, Bool-cases, inl, inr, arith,
}
use webbuilder.Files.Tree.{
  FileNode, node, absent, present, Nodes, nil, cons, name_of, with_children, find_node, push,
  replace_children, at_part, insert, insert_all, extend, split_path,
}
use webbuilder.Files.Tree.Paths.{full_path}
use webbuilder.Files.Tree.Shown.{full_path-split_path}
use webbuilder.Files.Browser.{show_node, show_nodes, entry_paths, file_paths}

module _ (P : String → Type 0) where
  -- every file below has a path with P
  abbrev mutual
    pub AllFiles : Nodes → Type 0
    AllFiles nil = Unit
    AllFiles (cons n level) = AllFilesNode n × AllFiles level

    AllFilesNode : FileNode → Type 0
    AllFilesNode (node name path false children) = P path
    AllFilesNode (node name path true absent) = Unit
    AllFilesNode (node name path true (present inside)) = AllFiles inside

  push-AllFiles :
      (new : FileNode) (level : Nodes)
      → AllFilesNode new
      → AllFiles level
      → AllFiles (push new level)
  unfolding push
  push-AllFiles new nil w h = (w, tt)
  push-AllFiles new (cons n level) w (m, h) = (m, push-AllFiles new level w h)

  -- what one node of a level becomes
  replace_children-AllFiles :
      (part : String) (inside level : Nodes)
      → ((n : FileNode)
          → find_node part level ≡ some n
          → AllFilesNode n
          → AllFilesNode (with_children n inside))
      → AllFiles level
      → AllFiles (replace_children part inside level)
  unfolding replace_children find_node
  replace_children-AllFiles part inside nil keeps h = tt
  replace_children-AllFiles part inside (cons n level) keeps (w, h) =
      elim (Bool-cases (name_of n == part)) [
        | inl e ↦ rw e (keeps n (rw e refl) w, h)
        | inr e ↦ rw e (w, replace_children-AllFiles part inside level (λ m f. keeps m (rw e f)) h)
      ]

  found-AllFiles :
      (part : String) (level : Nodes) (n : FileNode)
      → find_node part level ≡ some n
      → AllFiles level
      → AllFilesNode n
  unfolding find_node
  found-AllFiles part nil n f h = cc
  found-AllFiles part (cons m level) n f (w, h) = elim (Bool-cases (name_of m == part)) [
    | inl e ↦ subst AllFilesNode (some-injective _ _ (rw e at f)) w
    | inr e ↦ found-AllFiles part level n (rw e at f) h
  ]

  at_part-AllFiles :
      (last : Bool) (part path : String) (deeper : Nodes → Nodes) (level : Nodes)
      (o : Option FileNode)
      → (last ≡ true → P path)
      → ((inside : Nodes) → AllFiles inside → AllFiles (deeper inside))
      → find_node part level ≡ o
      → AllFiles level
      → AllFiles (at_part last part path deeper level o)
  unfolding at_part
  at_part-AllFiles true part path deeper level none p d f h = push-AllFiles _ level (p refl) h
  at_part-AllFiles false part path deeper level none p d f h = push-AllFiles _ level (d nil tt) h
  at_part-AllFiles true part path deeper level (some n) p d f h = h
  at_part-AllFiles false part path deeper level (some (node name q b absent)) p d f h = d level h
  at_part-AllFiles false part path deeper level (some (node name q true (present inside))) p d f h =
      replace_children-AllFiles part (deeper inside) level
        (λ m g.
          subst (λ (k : FileNode). AllFilesNode k → AllFilesNode (with_children k (deeper inside)))
            (some-injective _ _ (sym f ∙ g)) (λ w. d inside w))
        h
  at_part-AllFiles false part path deeper level (some (node name q false (present inside))) p d f
        h =
      replace_children-AllFiles part (deeper inside) level
        (λ m g.
          subst (λ (k : FileNode). AllFilesNode k → AllFilesNode (with_children k (deeper inside)))
            (some-injective _ _ (sym f ∙ g)) (λ w. w))
        h

  insert-AllFiles :
      (first : Bool) (path : String) (parts : List String) (level : Nodes)
      → P (full_path first path parts)
      → AllFiles level
      → AllFiles (insert first path parts level)
  unfolding insert full_path
  insert-AllFiles first path [] level p h = h
  insert-AllFiles first path (part ∷ []) level p h =
      at_part-AllFiles true part (extend first path part) _ level _ (λ e. p) (λ inside k. k) refl h
  insert-AllFiles first path (part ∷ next ∷ parts) level p h =
      at_part-AllFiles false part (extend first path part) _ level _
        (λ e. absurd (ground (arith, e)))
        (λ inside k. insert-AllFiles false (extend first path part) (next ∷ parts) inside p k) refl
        h

  pub insert_all-AllFiles :
      (files : List String) (root : Nodes)
      → All P files
      → AllFiles root
      → AllFiles (insert_all files root)
  unfolding insert_all
  insert_all-AllFiles [] root ps h = h
  insert_all-AllFiles (file ∷ files) root (p, ps) h = insert_all-AllFiles files _ ps (
      insert-AllFiles true "" (split_path file) root
        (subst P (sym (full_path-split_path "" file ∙ nil-append file)) p) h)

  All-append : (xs ys : List String) → All P xs → All P ys → All P (xs ++ ys)
  All-append [] ys h k = k
  All-append (x ∷ xs) ys (p, h) k = (p, All-append xs ys h k)

  mutual
    unfolding show_nodes file_paths

    node-offered : (n : FileNode) → AllFilesNode n → All P (entry_paths (show_node n))
    node-offered (node name path false children) w = (w, tt)
    node-offered (node name path true absent) w = tt
    node-offered (node name path true (present inside)) w = offered inside w

    pub offered : (level : Nodes) → AllFiles level → All P (file_paths (show_nodes level))
    offered nil h = tt
    offered (cons n level) (w, h) = All-append _ _ (node-offered n w) (offered level h)
