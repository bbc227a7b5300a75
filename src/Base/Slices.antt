-- ===== src/Base/Slices.antt =====
-- How long the beginning of a text is.
use Prim.Native.Char.{Char}
use Prim.Native.String.{String}
use Prim.Native.Nat.{ℕ, ◌+◌, ◌-◌, ◌≤◌}
use mathlib.Core.Path.{◌≡◌, refl, ap}
use mathlib.Core.Bool.{true}
use mathlib.Core.Logic.{inl, inr}
use native.Mathlib.Omega.{arith}
use webbuilder.Base.Tests.{leb, Bool-cases}
use webbuilder.Base.Text.{slice, utf16_length}

abbrev width : Char → ℕ
width c = utf16_length (String.◌∷◌ c String.[])

utf16_length-cons :
    (c : Char) (s : String) → utf16_length (String.◌∷◌ c s) ≡ width c + utf16_length s
unfolding utf16_length
utf16_length-cons c s = omega arith

utf16_length-nil : utf16_length "" ≡ 0
unfolding utf16_length
utf16_length-nil = refl

le_of_leb : (a b : ℕ) → leb a b ≡ true → a ≤ b
le_of_leb a b e = ground (arith, e)

-- A slice is as long as was asked at most.
pub utf16_length-slice : (n : ℕ) (s : String) → utf16_length (slice n s) ≤ n
unfolding slice
utf16_length-slice n String.[] = omega (arith, utf16_length-nil)
utf16_length-slice n (String.◌∷◌ c s) = elim (Bool-cases (leb (width c) n)) [
  | inl t ↦ rw t (
      omega (
        arith,
        utf16_length-cons c (slice (n - width c) s),
        utf16_length-slice (n - width c) s,
        le_of_leb (width c) n t,
      ))
  | inr f ↦ rw f (omega (arith, utf16_length-nil))
]

-- A text that is short enough is its own slice.
pub slice-short : (n : ℕ) (s : String) → utf16_length s ≤ n → slice n s ≡ s
unfolding slice
slice-short n String.[] h = refl
slice-short n (String.◌∷◌ c s) h =
    let long = utf16_length-cons c s in
    let fits : leb (width c) n ≡ true = ground (arith, long, h) in
    rw fits (ap (String.◌∷◌ c) (slice-short (n - width c) s (omega (arith, long, h))))
