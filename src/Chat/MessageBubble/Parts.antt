-- ===== src/Chat/MessageBubble/Parts.antt =====
-- The parts that a message is split into.
use Prim.Native.Char.{Char}
use text.Mathlib.TextLemmas.{append-nil, nil-append, cons-append}
use webbuilder.Base.{
  ℕ, zero, suc, ◌<◌, String, true, ◌≡◌, refl, sym, ◌∙◌, ap, inl, inr, none, some, List, [], ◌∷◌,
  concat, join, is_some, Option-cases, arith,
}
use webbuilder.Chat.MessageBubble.{
  Fence, fence_at, fence_text, match_fence, in_front, after_fence, split_fences, size, parts,
}
use webbuilder.Chat.MessageBubble.Fences.{fence_at-StartsWith}
use webbuilder.Chat.MessageBubble.Finds.{match_fence-IsFound}
use webbuilder.Chat.MessageBubble.Matches.{fence_at-Matches, size-concat}

abbrev pub IsText : String → Type 0
IsText part = match_fence part ≡ none

abbrev pub IsCode : String → Type 0
IsCode part = is_some (match_fence part) ≡ true

-- a text, then fences with a text after each
mutual
  pub IsTextFirst : List String → Type 0
  IsTextFirst [] = ⊥
  IsTextFirst (part ∷ rest) = IsText part × IsCodeFirst rest

  pub IsCodeFirst : List String → Type 0
  IsCodeFirst [] = Unit
  IsCodeFirst (part ∷ rest) = IsCode part × IsTextFirst rest

join-cons :
    (part : String) (rest : List String) → join "" (part ∷ rest) ≡ concat part (join "" rest)
unfolding join
join-cons part [] = sym (append-nil part)
join-cons part (next ∷ rest) = ap (concat part) (nil-append _)

-- What the split of a text is, whatever fuel above its size is given.
record Split (s : String) : Type 0 where
  head : String
  tail : List String
  is_split : (fuel : ℕ) → size s < fuel → split_fences fuel s ≡ some (head ∷ tail)
  joined : concat head (join "" tail) ≡ s
  alternates : IsTextFirst (head ∷ tail)

pub split_fences-nil : (fuel : ℕ) → 0 < fuel → split_fences fuel "" ≡ some ("" ∷ [])
unfolding split_fences
split_fences-nil zero h = absurd (omega (arith, h))
split_fences-nil (suc fuel) h = refl

split_fences-char :
    (fuel : ℕ) (c : Char) (s : String) (split : Split s)
    → fence_at (String.◌∷◌ c s) ≡ none
    → size (String.◌∷◌ c s) < fuel
    → split_fences fuel (String.◌∷◌ c s) ≡ some (String.◌∷◌ c split.head ∷ split.tail)
unfolding split_fences size
split_fences-char zero c s split n h = absurd (omega (arith, h))
split_fences-char (suc fuel) c s split n h =
    rw (n, split_fences, split.is_split fuel (omega (arith, h))) refl

fence_at-eq :
    (s : String) (f : Fence)
    → fence_at s ≡ some f
    → s ≡ concat (fence_text f.language f.code) f.after
fence_at-eq s f e = rw e at (fence_at-StartsWith s)

-- What comes after a fence is shorter.
size-after : (s : String) (f : Fence) → fence_at s ≡ some f → size f.after < size s
unfolding size
size-after s f e = omega (
  arith,
  ap size (fence_at-eq s f e),
  size-concat (fence_text f.language f.code) f.after,
  size-concat "```" (concat f.language (concat "\n" (concat f.code "```"))),
)

split_fences-fence :
    (fuel : ℕ) (c : Char) (s : String) (f : Fence) (split : Split f.after)
    → fence_at (String.◌∷◌ c s) ≡ some f
    → size (String.◌∷◌ c s) < fuel
    → split_fences fuel (String.◌∷◌ c s)
      ≡ some ("" ∷ fence_text f.language f.code ∷ split.head ∷ split.tail)
unfolding split_fences
split_fences-fence zero c s f split e h = absurd (omega (arith, h))
split_fences-fence (suc fuel) c s f split e h =
    rw (e, split_fences, split.is_split fuel (omega (arith, h, size-after (String.◌∷◌ c s) f e)))
      refl

-- A text in which no fence begins, and which the split ends before a fence, is not a fence.
IsText-of_none : (part rest : String) → fence_at (concat part rest) ≡ none → IsText part
IsText-of_none part rest n = elim (Option-cases (match_fence part)) [
  | inl m ↦ m
  | inr (f, m) ↦ absurd (ground (arith, rw (m, n) at (match_fence-IsFound part rest)))
]

nil-Split : Split ""
unfolding size split_fences IsTextFirst IsCodeFirst match_fence join
    webbuilder.Chat.MessageBubble.after_ticks
nil-Split = record {
  head = "";
  tail = [];
  is_split = split_fences-nil;
  joined = refl;
  alternates = (refl, tt);
}

char-Split :
    (c : Char) (s : String) → fence_at (String.◌∷◌ c s) ≡ none → Split s → Split (String.◌∷◌ c s)
unfolding IsTextFirst
char-Split c s n split =
    let joined : concat (String.◌∷◌ c split.head) (join "" split.tail) ≡ String.◌∷◌ c s =
      cons-append c split.head _ ∙ ap (String.◌∷◌ c) split.joined in
    record {
      head = String.◌∷◌ c split.head;
      tail = split.tail;
      is_split = λ fuel h. split_fences-char fuel c s split n h;
      joined = joined;
      alternates = (
        IsText-of_none (String.◌∷◌ c split.head) (join "" split.tail) (rw joined n),
        split.alternates.1,
      );
    }

fence-Split :
    (c : Char) (s : String) (f : Fence)
    → fence_at (String.◌∷◌ c s) ≡ some f
    → Split f.after
    → Split (String.◌∷◌ c s)
unfolding IsTextFirst IsCodeFirst match_fence webbuilder.Chat.MessageBubble.after_ticks
fence-Split c s f e split = record {
  head = "";
  tail = fence_text f.language f.code ∷ split.head ∷ split.tail;
  is_split = λ fuel h. split_fences-fence fuel c s f split e h;
  joined =
      nil-append _
      ∙ join-cons (fence_text f.language f.code) (split.head ∷ split.tail)
      ∙ ap (concat (fence_text f.language f.code)) (join-cons split.head split.tail ∙ split.joined)
      ∙ sym (fence_at-eq (String.◌∷◌ c s) f e);
  alternates = (refl, (rw (rw e at (fence_at-Matches (String.◌∷◌ c s))) refl, split.alternates));
}

split : (n : ℕ) (s : String) → size s < n → Split s
unfolding size
split zero s h = absurd (omega (arith, h))
split (suc n) String.[] h = nil-Split
split (suc n) (String.◌∷◌ c s) h = elim (Option-cases (fence_at (String.◌∷◌ c s))) [
  | inl e ↦ char-Split c s e (split n s (omega (arith, h)))
  | inr (f, e) ↦
      fence-Split c s f e (split n f.after (omega (arith, h, size-after (String.◌∷◌ c s) f e)))
]

whole : (content : String) → Split content
whole content = split (suc (size content)) content (omega arith)

parts-whole : (content : String) → parts content ≡ (whole content).head ∷ (whole content).tail
unfolding parts
parts-whole content = rw ((whole content).is_split (suc (size content)) (omega arith)) refl

-- The parts that a message is split into are the message again, one after the other. The first is a
-- text, and every second one a fence: no text is taken for a fence, and none that was found is shown
-- as a text.
pub parts-IsTextFirst :
    (content : String) → (join "" (parts content) ≡ content) × IsTextFirst (parts content)
parts-IsTextFirst content = rw (parts-whole content) (
  join-cons (whole content).head (whole content).tail ∙ (whole content).joined,
  (whole content).alternates,
)
