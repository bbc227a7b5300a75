-- ===== src/Base/Text.antt =====
-- Texts. Where the program only compares them they are the native `String`; `trim` walks them.
use Prim.Native.Char.{Char, code}
use Prim.Native.String
use Prim.Native.String.{String}
use mathlib.Core.Path.{◌≡◌, refl, ap, ◌∙◌}
use text.Mathlib.TextLemmas.{cons-append, nil-append}
use native.Mathlib.Omega.{arith}
use mathlib.Core.Bool.{Bool, true, false, not, ◌&&◌, ◌||◌}
use mathlib.Core.Option.{Option, none, some}
use mathlib.Core.List.{List, [], ◌∷◌}
use webbuilder.Base.Lists.{any}
use webbuilder.Base.Tests.{ltb, leb, eqb, if◌then◌else◌}
use Prim.Native.Nat.{ℕ, ◌+◌, ◌-◌}
pub use text.Mathlib.Text.{◌==◌, starts_with}
pub use text.Mathlib.TextEquality.{eq_iff}
pub use text.Mathlib.TextPositions.{eq_refl}
pub use text.Mathlib.TextLemmas.{append_cancel_left}

-- the white space that `trim` removes: tab to carriage return, space, no-break space and the
-- Unicode separators
abbrev pub is_space : Char → Bool
is_space c =
    (leb 9 (code c) && leb (code c) 13)
    || eqb (code c) 32
    || eqb (code c) 160
    || eqb (code c) 5760
    || (leb 8192 (code c) && leb (code c) 8202)
    || eqb (code c) 8232
    || eqb (code c) 8233
    || eqb (code c) 8239
    || eqb (code c) 8287
    || eqb (code c) 12288
    || eqb (code c) 65279

-- `!s.trim()`: nothing but white space
unfoldable pub is_blank : String → Bool
is_blank String.[] = true
is_blank (String.◌∷◌ c s) = is_space c && is_blank s

-- an empty text is falsy
abbrev pub is_empty : String → Bool
is_empty s = s == ""

-- `if (o)` on an optional text
abbrev pub truthy : Option String → Bool
truthy none = false
truthy (some s) = not (is_empty s)

-- a template literal, piece by piece
abbrev pub concat : String → String → String
concat s t = String.◌++◌ s t

-- a character in front of a text
pub one_char : (c : Char) (s : String) → concat (String.◌∷◌ c String.[]) s ≡ String.◌∷◌ c s
one_char c s = cons-append c String.[] s ∙ ap (String.◌∷◌ c) (nil-append s)

-- `length` of a JavaScript text counts UTF-16 units: two for a code point past the basic plane
unfoldable pub utf16_length : String → ℕ
utf16_length String.[] = 0
utf16_length (String.◌∷◌ c s) = (if ltb 65535 (code c) then 2 else 1) + utf16_length s

unfoldable pub trim_start : String → String
trim_start String.[] = ""
trim_start (String.◌∷◌ c s) = let rest = trim_start s in if is_space c then rest else String.◌∷◌ c s

unfoldable pub trim_end : String → String
trim_end String.[] = ""
trim_end (String.◌∷◌ c s) =
    let rest = trim_end s in if is_space c && is_empty rest then "" else String.◌∷◌ c rest

unfoldable pub trim : String → String
unfolding trim_start trim_end
trim s = trim_end (trim_start s)

-- `Array.includes` for texts
abbrev pub contains : List String → String → Bool
contains xs x = any (λ y. y == x) xs

-- `===` between texts that may be missing
abbrev pub same_text : Option String → Option String → Bool
same_text none none = true
same_text none (some t) = false
same_text (some s) none = false
same_text (some s) (some t) = s == t

-- `Array.join`
unfoldable pub join : String → List String → String
join sep [] = ""
join sep (s ∷ []) = s
join sep (s ∷ t ∷ rest) = concat s (concat sep (join sep (t ∷ rest)))

pub same_text-eq : (o p : Option String) → same_text o p ≡ true → o ≡ p
same_text-eq none none h = refl
same_text-eq none (some t) h = cc
same_text-eq (some s) none h = cc
same_text-eq (some s) (some t) h = ground (arith, eq_iff s t)

pub same_text_self : (o : Option String) → same_text o o ≡ true
same_text_self none = refl
same_text_self (some s) = eq_refl s

-- `String.split` at the characters that a test picks; a character in front of the first part
abbrev pub in_front : Char → List String → List String
in_front c [] = []
in_front c (part ∷ parts) = String.◌∷◌ c part ∷ parts

unfoldable pub split_on : (Char → Bool) → String → List String
split_on is_separator String.[] = "" ∷ []
split_on is_separator (String.◌∷◌ c s) =
    let rest = split_on is_separator s in if is_separator c then "" ∷ rest else in_front c rest

-- `slice(0, n)` for texts whose characters it does not cut in two
unfoldable pub slice : ℕ → String → String
slice n String.[] = ""
slice n (String.◌∷◌ c s) =
    let width = utf16_length (String.◌∷◌ c String.[]) in
    let rest = slice (n - width) s in if leb width n then String.◌∷◌ c rest else ""
