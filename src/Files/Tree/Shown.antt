-- ===== src/Files/Tree/Shown.antt =====
-- The files of a tree stand at their paths.
use text.Mathlib.TextLemmas.{append-nil, append_assoc, nil-append}
use webbuilder.Base.{
  String, true, false, ◌≡◌, refl, sym, ◌∙◌, ap, List, [], ◌∷◌, All, concat, eq_iff, arith,
  Bool-cases, inl, inr, one_char,
}
use webbuilder.Files.Tree.{Nodes, nil, insert, insert_all, build_file_tree, split_path, is_slash}
use webbuilder.Files.Tree.Paths.{
  missing, leaf, view, view-nil, full_path, view-insert, apart, view-insert-apart,
}

-- a text is split into one part at least
pub record IsCons (parts : List String) : Type 0 where
  pub head : String
  pub tail : List String
  pub is_cons : parts ≡ head ∷ tail

split_path-IsCons : (s : String) → IsCons (split_path s)
unfolding webbuilder.Base.split_on
split_path-IsCons String.[] = record { head = _; tail = _; is_cons = refl }
split_path-IsCons (String.◌∷◌ c s) = elim (Bool-cases (is_slash c)) [
  | inl e ↦ rw e (record { head = _; tail = _; is_cons = refl })
  | inr e ↦
      let h = split_path-IsCons s in
      rw (e, h.is_cons) (record { head = _; tail = _; is_cons = refl })
]

-- One more piece before a text whose parts are put together.
piece-full_path :
    (path piece s head : String) (tail : List String)
    → full_path false (concat (concat path piece) head) tail ≡ concat (concat path piece) s
    → full_path false (concat path (concat piece head)) tail ≡ concat path (concat piece s)
piece-full_path path piece s head tail h =
    rw⁻¹ (append_assoc path piece head, append_assoc path piece s) h

-- Splitting a path at its slashes and joining the parts again, as the tree does for the path of a
-- node, gives the path back, after any text that is in front.
pub full_path-split_path : (path s : String) → full_path true path (split_path s) ≡ concat path s
unfolding webbuilder.Base.split_on full_path
full_path-split_path path String.[] = refl
full_path-split_path path (String.◌∷◌ c s) =
    let h = split_path-IsCons s in
    elim (Bool-cases (is_slash c)) [
      | inl e ↦
          rw (e, h.is_cons)
            (ap (λ t. full_path false (concat t (concat "/" h.head)) h.tail) (append-nil path)
              ∙ piece-full_path path "/" s h.head h.tail
                  (rw h.is_cons at (full_path-split_path (concat path "/") s))
              ∙ ap (λ t. concat path (concat t s)) (sym ((eq_iff _ "/").0 e))
              ∙ ap (concat path) (one_char c s))
      | inr e ↦
          rw (e, h.is_cons)
            (ap (λ t. full_path false (concat path t) h.tail) (sym (one_char c h.head))
              ∙ piece-full_path path (String.◌∷◌ c String.[]) s h.head h.tail
                  (rw h.is_cons at (full_path-split_path (concat path (String.◌∷◌ c String.[])) s))
              ∙ ap (concat path) (one_char c s))
    ]

shown :
    (file : String) (root : Nodes)
    → view (split_path file) root ≡ missing
    → view (split_path file) (insert true "" (split_path file) root) ≡ leaf file
shown file root v =
    let h = split_path-IsCons file in
    rw h.is_cons (view-insert true "" h.head h.tail root (rw h.is_cons at v))
    ∙ ap leaf
        (ap (full_path true "") (sym h.is_cons) ∙ full_path-split_path "" file ∙ nil-append file)

apart-sym : (ps qs : List String) → apart ps qs ≡ true → apart qs ps ≡ true
unfolding apart
apart-sym [] qs h = cc
apart-sym (p ∷ ps) [] h = cc
apart-sym (p ∷ ps) (q ∷ qs) h = ground (arith, apart-sym ps qs, eq_iff p q, eq_iff q p)

abbrev AllMissing : List String → Nodes → Type 0
AllMissing files root = All (λ file. view (split_path file) root ≡ missing) files

-- the files whose path is the beginning neither of `file` nor the other way round
abbrev pub AreApartFrom : String → List String → Type 0
AreApartFrom file files = All (λ other. apart (split_path other) (split_path file) ≡ true) files

-- no two of the files have the same path, nor is one in a directory with the path of another
abbrev pub AreApart : List String → Type 0
AreApart [] = Unit
AreApart (file ∷ files) = AreApartFrom file files × AreApart files

AllMissing-insert :
    (file : String) (files : List String) (root : Nodes)
    → AreApartFrom file files
    → view (split_path file) root ≡ missing
    → AllMissing files root
    → AllMissing files (insert true "" (split_path file) root)
AllMissing-insert file [] root a v h = tt
AllMissing-insert file (other ∷ files) root (a, as') v (h, hs) = (
  view-insert-apart true "" (split_path other) (split_path file) root a v ∙ h,
  AllMissing-insert file files root as' v hs,
)

-- What a file shows stays while others are inserted.
view-insert_all :
    (file : String) (files : List String) (root : Nodes)
    → AreApartFrom file files
    → AreApart files
    → AllMissing files root
    → view (split_path file) (insert_all files root) ≡ view (split_path file) root
unfolding insert_all
view-insert_all file [] root a p h = refl
view-insert_all file (other ∷ files) root (a, as') (p, ps) (h, hs) =
    view-insert_all file files _ as' ps (AllMissing-insert other files root p h hs)
    ∙ view-insert-apart true "" (split_path file) (split_path other) root (apart-sym _ _ a) h

insert_all-shown :
    (files : List String) (root : Nodes)
    → AreApart files
    → AllMissing files root
    → All (λ file. view (split_path file) (insert_all files root) ≡ leaf file) files
unfolding insert_all
insert_all-shown [] root p h = tt
insert_all-shown (file ∷ files) root (p, ps) (h, hs) =
    let rest = AllMissing-insert file files root p h hs in
    (view-insert_all file files _ p ps rest ∙ shown file root h, insert_all-shown files _ ps rest)

AllMissing-nil : (files : List String) → AllMissing files nil
AllMissing-nil [] = tt
AllMissing-nil (file ∷ files) = (view-nil (split_path file), AllMissing-nil files)

-- The tree of a list of files, of which no two have the same path and none lies in a directory
-- with the path of another, shows each of them as a file: at the parts of its path, and with its
-- path.
pub view-build_file_tree :
    (files : List String)
    → AreApart files
    → All (λ file. view (split_path file) (build_file_tree files) ≡ leaf file) files
unfolding build_file_tree
view-build_file_tree files p = insert_all-shown files nil p (AllMissing-nil files)
