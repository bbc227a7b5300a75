-- ===== src/Chat/MessageBubble/Matches.antt =====
-- The second regular expression matches what the first one has found.
use Prim.Native.Char.{Char}
use text.Mathlib.TextLemmas.{nil-append, cons-append}
use webbuilder.Base.{
  ◌+◌, String, false, ◌≡◌, refl, sym, ◌∙◌, ap, inl, inr, Option, none, some, concat, eq_iff,
  Bool-cases, one_char, Holds, ◌==◌, arith,
}
use webbuilder.ToolPresentation.{is_newline}
use webbuilder.Chat.MessageBubble.Finds.{three_ticks, line_end-newline}
use webbuilder.Chat.MessageBubble.{
  Cut, Fence, widen, after_ticks, line_end, cut_here, closing, with_code, with_line, with_ticks,
  fence_at, fence_text, closing_end, match_fence, size,
}

-- `line_end` does not look past the end of the line.
abbrev EndsLine : Cut → Type 0
EndsLine cut =
    (rest : String)
    → line_end (concat cut.before (concat "\n" rest))
      ≡ some (record { before = cut.before; after = rest })

EndsLine-widen :
    (c : Char) (o : Option Cut)
    → is_newline c ≡ false
    → Holds EndsLine o
    → Holds EndsLine (widen c o)
unfolding line_end
EndsLine-widen c none f h = tt
EndsLine-widen c (some cut) f h =
    λ rest. rw (cons-append c cut.before (concat "\n" rest), f, h rest) refl

line_end-EndsLine : (s : String) → Holds EndsLine (line_end s)
unfolding line_end
line_end-EndsLine String.[] = tt
line_end-EndsLine (String.◌∷◌ c s) = elim (Bool-cases (is_newline c)) [
  | inr f ↦ rw f (EndsLine-widen c (line_end s) f (line_end-EndsLine s))
  | inl t ↦ rw t (λ rest.
      ap line_end (
        nil-append (concat "\n" rest)
        ∙ ap (λ u. concat u rest) (sym ((eq_iff _ "\n").0 t))
        ∙ one_char c rest)
      ∙ line_end-newline c rest t)
]

pub size-concat : (s t : String) → size (concat s t) ≡ size s + size t
unfolding size
size-concat String.[] t = rw (nil-append t) (omega arith)
size-concat (String.◌∷◌ c s) t = rw (cons-append c s t) (omega (arith, size-concat s t))

long : (c : Char) (code : String) → (String.◌∷◌ c (concat code "```") == "```") ≡ false
unfolding size
long c code = elim (Bool-cases (String.◌∷◌ c (concat code "```") == "```")) [
  | inr f ↦ f
  | inl t ↦ absurd (omega (arith, size-concat code "```", ap size ((eq_iff _ "```").0 t)))
]

-- The code of a fence is cut off at its end again.
abbrev EndsCode : Cut → Type 0
EndsCode cut = closing_end (concat cut.before "```") ≡ some cut.before

EndsCode-widen : (c : Char) (o : Option Cut) → Holds EndsCode o → Holds EndsCode (widen c o)
unfolding closing_end
EndsCode-widen c none h = tt
EndsCode-widen c (some cut) h = rw (cons-append c cut.before "```", long c cut.before, h) refl

EndsCode-here :
    (here : Option String) (later : Option Cut)
    → Holds EndsCode later
    → Holds EndsCode (cut_here here later)
unfolding closing_end
EndsCode-here none later h = h
EndsCode-here (some t) later h = refl

closing-EndsCode : (s : String) → Holds EndsCode (closing s)
unfolding closing
closing-EndsCode String.[] = tt
closing-EndsCode (String.◌∷◌ c s) =
    EndsCode-here (after_ticks 3 (String.◌∷◌ c s)) _
      (EndsCode-widen c (closing s) (closing-EndsCode s))

-- The second expression matches the text of a fence that the first one has found.
abbrev pub Matches : Fence → Type 0
Matches f =
    match_fence (fence_text f.language f.code)
    ≡ some (record { language = f.language; code = f.code; after = "" })

with_code-Matches :
    (language : String) (o : Option Cut)
    → ((rest : String)
        → line_end (concat language (concat "\n" rest))
          ≡ some (record { before = language; after = rest }))
    → Holds EndsCode o
    → Holds Matches (with_code language o)
unfolding match_fence
with_code-Matches language none l h = tt
with_code-Matches language (some cut) l h =
    rw
      (
        three_ticks (concat language (concat "\n" (concat cut.before "```"))),
        l (concat cut.before "```"),
        h,
      )
      refl

with_line-Matches : (o : Option Cut) → Holds EndsLine o → Holds Matches (with_line o)
with_line-Matches none h = tt
with_line-Matches (some cut) h =
    with_code-Matches cut.before (closing cut.after) h (closing-EndsCode cut.after)

with_ticks-Matches : (o : Option String) → Holds Matches (with_ticks o)
with_ticks-Matches none = tt
with_ticks-Matches (some s) = with_line-Matches (line_end s) (line_end-EndsLine s)

pub fence_at-Matches : (s : String) → Holds Matches (fence_at s)
unfolding fence_at
fence_at-Matches s = with_ticks-Matches (after_ticks 3 s)
