-- ===== src/Chat/MessageBubble/Finds.antt =====
-- The first regular expression finds what the second one matches.
use Prim.Native.Char.{Char}
use text.Mathlib.TextLemmas.{nil-append, cons-append}
use webbuilder.Base.{
  ℕ, zero, suc, String, true, false, ◌≡◌, refl, ◌∙◌, ap, inl, inr, Option, none, some, concat,
  eq_iff, Bool-cases, Holds, is_some, ◌==◌, arith,
}
use webbuilder.ToolPresentation.{is_newline}
use webbuilder.Chat.MessageBubble.{
  Cut, widen, is_tick, after_ticks, line_end, cut_here, closing, with_code, with_line, fence_at,
  closing_end, match_fence, with_end, end_of_line, end_of_ticks,
}

pub line_end-newline :
    (c : Char) (rest : String)
    → is_newline c ≡ true
    → line_end (String.◌∷◌ c rest) ≡ some (record { before = ""; after = rest })
unfolding line_end
line_end-newline c rest t = rw t refl

-- Backticks are the same in front of more text, and so are a line and a code that ends.
after_ticks-append :
    (n : ℕ) (s rest : String)
    → Holds (λ t. after_ticks n (concat s rest) ≡ some (concat t rest)) (after_ticks n s)
unfolding after_ticks
after_ticks-append zero s rest = refl
after_ticks-append (suc n) String.[] rest = tt
after_ticks-append (suc n) (String.◌∷◌ c s) rest = elim (Bool-cases (is_tick c)) [
  | inr f ↦ rw f tt
  | inl t ↦ rw (t, cons-append c s rest, t) (after_ticks-append n s rest)
]

abbrev StaysLine : (s rest : String) → Cut → Type 0
StaysLine s rest cut =
    line_end (concat s rest) ≡ some (record { before = cut.before; after = concat cut.after rest })

StaysLine-widen :
    (c : Char) (s rest : String) (o : Option Cut)
    → is_newline c ≡ false
    → Holds (StaysLine s rest) o
    → Holds (StaysLine (String.◌∷◌ c s) rest) (widen c o)
unfolding line_end
StaysLine-widen c s rest none f h = tt
StaysLine-widen c s rest (some cut) f h = rw (cons-append c s rest, f, h) refl

line_end-StaysLine : (s rest : String) → Holds (StaysLine s rest) (line_end s)
unfolding line_end
line_end-StaysLine String.[] rest = tt
line_end-StaysLine (String.◌∷◌ c s) rest = elim (Bool-cases (is_newline c)) [
  | inl t ↦ rw (t, cons-append c s rest) (line_end-newline c (concat s rest) t)
  | inr f ↦ rw f (StaysLine-widen c s rest (line_end s) f (line_end-StaysLine s rest))
]

is_some-cut_here :
    (here : Option String) (later : Option Cut)
    → is_some later ≡ true
    → is_some (cut_here here later) ≡ true
is_some-cut_here none later h = h
is_some-cut_here (some t) later h = refl

is_some-widen : (c : Char) (o : Option Cut) → is_some o ≡ true → is_some (widen c o) ≡ true
is_some-widen c none h = h
is_some-widen c (some cut) h = refl

closing_now : (s after : String) → after_ticks 3 s ≡ some after → is_some (closing s) ≡ true
unfolding closing after_ticks
closing_now String.[] after h = absurd (ground (arith, h))
closing_now (String.◌∷◌ c s) after h = rw h refl

closing_later :
    (c : Char) (s : String) → is_some (closing s) ≡ true → is_some (closing (String.◌∷◌ c s)) ≡ true
unfolding closing
closing_later c s h =
    is_some-cut_here (after_ticks 3 (String.◌∷◌ c s)) (widen c (closing s))
      (is_some-widen c (closing s) h)

pub three_ticks : (rest : String) → after_ticks 3 (concat "```" rest) ≡ some rest
unfolding after_ticks
three_ticks rest = after_ticks-append 3 "```" rest ∙ ap some (nil-append rest)

closing_three : (rest : String) → is_some (closing (concat "```" rest)) ≡ true
closing_three rest = closing_now _ _ (three_ticks rest)

Closes : (s rest : String) → Type 0
Closes s rest = is_some (closing (concat s rest)) ≡ true

Closes-cons :
    (c : Char) (s rest : String) (o : Option String)
    → Holds (λ code. Closes s rest) o
    → Holds
        (λ code. Closes (String.◌∷◌ c s) rest)
        (elim o [ none ↦ none | some code ↦ some (String.◌∷◌ c code) ])
unfolding Closes
Closes-cons c s rest none h = tt
Closes-cons c s rest (some code) h = rw (cons-append c s rest) (closing_later c (concat s rest) h)

closing_end-Closes : (s rest : String) → Holds (λ code. Closes s rest) (closing_end s)
unfolding closing_end Closes
closing_end-Closes String.[] rest = tt
closing_end-Closes (String.◌∷◌ c s) rest = elim (Bool-cases (String.◌∷◌ c s == "```")) [
  | inl t ↦ rw t (rw ((eq_iff _ "```").0 t) (closing_three rest))
  | inr f ↦ rw f (Closes-cons c s rest (closing_end s) (closing_end-Closes s rest))
]

-- The first expression finds, in front of more text, what the second one matches.
abbrev pub IsFound : (s rest : String) → Type 0
IsFound s rest = is_some (fence_at (concat s rest)) ≡ true

with_code_found :
    (language : String) (o : Option Cut) → is_some o ≡ true → is_some (with_code language o) ≡ true
with_code_found language none h = h
with_code_found language (some cut) h = refl

with_end-IsFound :
    (language u rest : String) (o : Option String)
    → Holds (λ code. Closes u rest) o
    → Holds
        (λ f. is_some (with_code language (closing (concat u rest))) ≡ true)
        (with_end language o)
unfolding Closes
with_end-IsFound language u rest none h = tt
with_end-IsFound language u rest (some code) h =
    with_code_found language (closing (concat u rest)) h

end_of_line-IsFound :
    (u rest : String) (o : Option Cut)
    → Holds (StaysLine u rest) o
    → Holds (λ f. is_some (with_line (line_end (concat u rest))) ≡ true) (end_of_line o)
end_of_line-IsFound u rest none h = tt
end_of_line-IsFound u rest (some cut) h = rw h (
    with_end-IsFound cut.before cut.after rest (closing_end cut.after)
      (closing_end-Closes cut.after rest))

end_of_ticks-IsFound :
    (s rest : String) (o : Option String)
    → Holds (λ t. after_ticks 3 (concat s rest) ≡ some (concat t rest)) o
    → Holds (λ f. IsFound s rest) (end_of_ticks o)
unfolding fence_at
end_of_ticks-IsFound s rest none h = tt
end_of_ticks-IsFound s rest (some t) h =
    rw h (end_of_line-IsFound t rest (line_end t) (line_end-StaysLine t rest))

pub match_fence-IsFound : (s rest : String) → Holds (λ f. IsFound s rest) (match_fence s)
unfolding match_fence
match_fence-IsFound s rest =
    end_of_ticks-IsFound s rest (after_ticks 3 s) (after_ticks-append 3 s rest)
