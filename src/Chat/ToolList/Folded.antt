-- ===== src/Chat/ToolList/Folded.antt =====
-- Which calls the list folds away.
use webbuilder.Base.{
  ℕ, zero, suc, ◌≤◌, ◌<◌, ◌+◌, min, ◌≡◌, refl, true, not, ◌⊎◌, inl, inr, Option, none, some, List,
  [], ◌∷◌, ◌++◌, All, length, take, find_index, or_else, leb, if◌then◌else◌, append-take-drop,
  length-drop, ◌-◌, if_keeps, Bool-cases, arith,
}
use webbuilder.Chat.Types.{ToolCall}
use webbuilder.Chat.ToolList.{is_success, successes, hidden_count, count, earlier, shown}

abbrev pub IsSuccess : ToolCall → Type 0
IsSuccess tool = is_success tool.status ≡ true

-- Nothing is lost or moved; what is folded away is nothing or at least four calls, all of which
-- succeeded, and fewer than four more could be; and the last three calls are shown at least.
pub record IsFolded (calls : List ToolCall) : Type 0 where
  pub keeps_all : earlier calls ++ shown calls ≡ calls
  pub all_succeeded : All IsSuccess (earlier calls)
  pub worth_it : (count calls ≡ 0) ⊎ (4 ≤ count calls)
  pub folds : min (successes calls) (length calls - 3) < 4 + count calls
  pub last_stay : min 3 (length calls) ≤ length (shown calls)

or_else-suc :
    (o : Option ℕ) (n : ℕ)
    → or_else (elim o [ none ↦ none | some i ↦ some (suc i) ]) (suc n) ≡ suc (or_else o n)
or_else-suc none n = refl
or_else-suc (some i) n = refl

successes-cons :
    (tool : ToolCall) (calls : List ToolCall)
    → successes (tool ∷ calls) ≡ (if is_success tool.status then suc (successes calls) else 0)
unfolding successes
successes-cons tool calls = elim (Bool-cases (is_success tool.status)) [
  | inl s ↦
      rw s (
        or_else-suc (find_index (λ (t : ToolCall). not (is_success t.status)) calls) (length calls))
  | inr f ↦ rw f refl
]

take-successes :
    (n : ℕ) (calls : List ToolCall) → n ≤ successes calls → All IsSuccess (take n calls)
take-successes zero calls h = tt
take-successes (suc n) [] h = tt
take-successes (suc n) (tool ∷ calls) h = elim (Bool-cases (is_success tool.status)) [
  | inl s ↦ (s, take-successes n calls (ground (arith, successes-cons tool calls, s, h)))
  | inr f ↦ absurd (ground (arith, successes-cons tool calls, f, h))
]

hidden_count-few : (calls : List ToolCall) → hidden_count calls ≤ successes calls
unfolding hidden_count
hidden_count-few calls = omega arith

hidden_count-late : (calls : List ToolCall) → hidden_count calls ≤ length calls - 3
unfolding hidden_count
hidden_count-late calls = omega arith

count-cases : (calls : List ToolCall) → (count calls ≡ 0) ⊎ (4 ≤ count calls)
unfolding count
count-cases calls = elim (Bool-cases (leb 4 (hidden_count calls))) [
  | inl t ↦ inr (rw t (ground (arith, t)))
  | inr f ↦ inl (rw f refl)
]

hidden-count : (calls : List ToolCall) → min (successes calls) (length calls - 3) < 4 + count calls
unfolding count hidden_count
hidden-count calls = elim (Bool-cases (leb 4 (min (successes calls) (length calls - 3)))) [
  | inl t ↦ rw t (omega arith)
  | inr f ↦ rw f (ground (arith, f))
]

count-hidden : (calls : List ToolCall) → count calls ≤ hidden_count calls
unfolding count
count-hidden calls =
    if_keeps (λ (n : ℕ). n ≤ hidden_count calls) (leb 4 (hidden_count calls)) (omega arith)
      (omega arith)

-- For every list of calls: the folded and the shown calls are the list in its order; what is folded
-- away is nothing or at least four calls, all of which succeeded, and fewer than four more could be
-- (calls that succeeded before the first that did not, and are not among the last three); and the
-- last three calls, or all of a shorter list, are shown.
pub shown-IsFolded : (calls : List ToolCall) → IsFolded calls
unfolding earlier shown
shown-IsFolded calls =
    let few : count calls ≤ successes calls =
      omega (arith, count-hidden calls, hidden_count-few calls) in
    let late : count calls ≤ length calls - 3 =
      omega (arith, count-hidden calls, hidden_count-late calls) in
    record {
      keeps_all = append-take-drop (count calls) calls;
      all_succeeded = take-successes (count calls) calls few;
      worth_it = count-cases calls;
      folds = hidden-count calls;
      last_stay = omega (arith, length-drop (count calls) calls, late);
    }
