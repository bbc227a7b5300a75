-- ===== src/Base/Trimming.antt =====
-- What `trim` leaves is blank just where the text was.
use Prim.Native.Char.{Char}
use Prim.Native.String.{String}
use mathlib.Core.Path.{◌≡◌, refl, ap, sym, ◌∙◌}
use mathlib.Core.Bool.{Bool, true, false, ◌&&◌}
use mathlib.Core.Logic.{inl, inr}
use text.Mathlib.TextLemmas.{cons≢nil}
use text.Mathlib.TextEquality.{eq_iff}
use webbuilder.Base.Tests.{Bool-cases, if◌then◌else◌}
use webbuilder.Base.Text.{is_space, is_blank, is_empty, trim, trim_start, trim_end}

is_blank-trim_start : (s : String) → is_blank (trim_start s) ≡ is_blank s
unfolding is_blank trim_start
is_blank-trim_start String.[] = refl
is_blank-trim_start (String.◌∷◌ c s) = elim (Bool-cases (is_space c)) [
  | inl t ↦ rw t (is_blank-trim_start s)
  | inr f ↦ rw f (rw f refl)
]

pub is_empty-cons : (c : Char) (s : String) → is_empty (String.◌∷◌ c s) ≡ false
is_empty-cons c s = elim (Bool-cases (is_empty (String.◌∷◌ c s))) [
  | inl e ↦ absurd (cons≢nil ((eq_iff (String.◌∷◌ c s) "").0 e))
  | inr e ↦ e
]

is_empty-if : (b : Bool) (s : String) → is_empty s ≡ false → is_empty (if b then "" else s) ≡ b
is_empty-if true s e = refl
is_empty-if false s e = e

is_empty-trim_end : (s : String) → is_empty (trim_end s) ≡ is_blank s
unfolding is_blank trim_end
is_empty-trim_end String.[] = refl
is_empty-trim_end (String.◌∷◌ c s) =
    is_empty-if (is_space c && is_empty (trim_end s)) _ (is_empty-cons c (trim_end s))
    ∙ ap (λ b. is_space c && b) (is_empty-trim_end s)

is_blank-if :
    (space empty blank : Bool) (s : String)
    → empty ≡ blank
    → is_blank s ≡ space && blank
    → is_blank (if space && empty then "" else s) ≡ space && blank
unfolding is_blank
is_blank-if true true true s e h = refl
is_blank-if true true false s e h = e
is_blank-if true false blank s e h = h
is_blank-if false empty blank s e h = h

is_blank-trim_end : (s : String) → is_blank (trim_end s) ≡ is_blank s
unfolding is_blank trim_end
is_blank-trim_end String.[] = refl
is_blank-trim_end (String.◌∷◌ c s) =
    is_blank-if (is_space c) (is_empty (trim_end s)) (is_blank s) _ (is_empty-trim_end s)
      (ap (λ b. is_space c && b) (is_blank-trim_end s))

is_empty-trim : (s : String) → is_empty (trim s) ≡ is_blank s
unfolding trim
is_empty-trim s = is_empty-trim_end (trim_start s) ∙ is_blank-trim_start s

-- Trimming a second time leaves something just where the first did.
pub is_empty-trim-trim : (s : String) → is_empty (trim (trim s)) ≡ is_empty (trim s)
unfolding trim
is_empty-trim-trim s =
    is_empty-trim (trim s)
    ∙ is_blank-trim_end (trim_start s)
    ∙ is_blank-trim_start s
    ∙ sym (is_empty-trim s)
