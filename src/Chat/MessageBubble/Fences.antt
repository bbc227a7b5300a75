-- ===== src/Chat/MessageBubble/Fences.antt =====
-- What the pieces of a fence are: where one is found, the text is the fence and what comes after.
use Prim.Native.Char.{Char}
use text.Mathlib.TextLemmas.{append_assoc, nil-append, cons-append}
use webbuilder.Base.{
  ℕ, zero, suc, String, ◌≡◌, refl, sym, ◌∙◌, ap, inl, inr, Option, none, some, concat, eq_iff,
  Bool-cases, one_char, Holds, Holds-weaken,
}
use webbuilder.ToolPresentation.{is_newline}
use webbuilder.Chat.MessageBubble.{
  Cut, Fence, widen, is_tick, after_ticks, line_end, cut_here, closing, with_code, with_line,
  with_ticks, fence_at, fence_text,
}

ticks : ℕ → String
ticks zero = ""
ticks (suc n) = concat "`" (ticks n)

-- a text that begins with a piece, and with what comes before it
cons-concat :
    (c : Char) (piece s t : String)
    → String.◌∷◌ c String.[] ≡ piece
    → s ≡ t
    → String.◌∷◌ c s ≡ concat piece t
cons-concat c piece s t e h = sym (one_char c s) ∙ ap (λ u. concat u s) e ∙ ap (concat piece) h

after_ticks-text : (n : ℕ) (s : String) → Holds (λ t. s ≡ concat (ticks n) t) (after_ticks n s)
unfolding after_ticks ticks
after_ticks-text zero s = sym (nil-append s)
after_ticks-text (suc n) String.[] = tt
after_ticks-text (suc n) (String.◌∷◌ c s) = elim (Bool-cases (is_tick c)) [
  | inr f ↦ rw f tt
  | inl t ↦ rw t (
      Holds-weaken (after_ticks n s)
        (λ u h. cons-concat c "`" s _ ((eq_iff _ "`").0 t) h ∙ sym (append_assoc "`" (ticks n) u))
        (after_ticks-text n s))
]

abbrev IsCut : (separator s : String) → Cut → Type 0
IsCut separator s cut = s ≡ concat cut.before (concat separator cut.after)

IsCut-widen :
    (c : Char) (separator s : String) (o : Option Cut)
    → Holds (IsCut separator s) o
    → Holds (IsCut separator (String.◌∷◌ c s)) (widen c o)
IsCut-widen c separator s none h = tt
IsCut-widen c separator s (some cut) h = ap (String.◌∷◌ c) h ∙ sym (cons-append c cut.before _)

line_end-IsCut : (s : String) → Holds (IsCut "\n" s) (line_end s)
unfolding line_end
line_end-IsCut String.[] = tt
line_end-IsCut (String.◌∷◌ c s) = elim (Bool-cases (is_newline c)) [
  | inl t ↦ rw t (cons-concat c "\n" s s ((eq_iff _ "\n").0 t) refl ∙ sym (nil-append _))
  | inr f ↦ rw f (IsCut-widen c "\n" s (line_end s) (line_end-IsCut s))
]

IsCut-here :
    (s : String) (here : Option String) (later : Option Cut)
    → Holds (λ t. s ≡ concat (ticks 3) t) here
    → Holds (IsCut "```" s) later
    → Holds (IsCut "```" s) (cut_here here later)
unfolding ticks
IsCut-here s none later h k = k
IsCut-here s (some t) later h k = h ∙ sym (nil-append _)

closing-IsCut : (s : String) → Holds (IsCut "```" s) (closing s)
unfolding closing
closing-IsCut String.[] = tt
closing-IsCut (String.◌∷◌ c s) =
    IsCut-here _ (after_ticks 3 (String.◌∷◌ c s)) _ (after_ticks-text 3 (String.◌∷◌ c s))
      (IsCut-widen c "```" s (closing s) (closing-IsCut s))

-- The text is the fence that begins it, and the rest.
abbrev pub StartsWith : String → Fence → Type 0
StartsWith s f = s ≡ concat (fence_text f.language f.code) f.after

with_code-StartsWith :
    (s language u : String) (o : Option Cut)
    → s ≡ concat "```" (concat language (concat "\n" u))
    → Holds (IsCut "```" u) o
    → Holds (StartsWith s) (with_code language o)
with_code-StartsWith s language u none e h = tt
with_code-StartsWith s language u (some cut) e h = e ∙ rw h (simp append_assoc)

with_line-StartsWith :
    (s u : String) (o : Option Cut)
    → s ≡ concat "```" u
    → Holds (IsCut "\n" u) o
    → Holds (StartsWith s) (with_line o)
with_line-StartsWith s u none e h = tt
with_line-StartsWith s u (some cut) e h =
    with_code-StartsWith s cut.before cut.after (closing cut.after) (e ∙ ap (concat "```") h)
      (closing-IsCut cut.after)

with_ticks-StartsWith :
    (s : String) (o : Option String)
    → Holds (λ t. s ≡ concat (ticks 3) t) o
    → Holds (StartsWith s) (with_ticks o)
unfolding ticks
with_ticks-StartsWith s none h = tt
with_ticks-StartsWith s (some u) h = with_line-StartsWith s u (line_end u) h (line_end-IsCut u)

pub fence_at-StartsWith : (s : String) → Holds (StartsWith s) (fence_at s)
unfolding fence_at
fence_at-StartsWith s = with_ticks-StartsWith s (after_ticks 3 s) (after_ticks-text 3 s)
