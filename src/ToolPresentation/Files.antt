-- ===== src/ToolPresentation/Files.antt =====
-- Which files a presentation lists.
use webbuilder.Base.{
  String, false, not, ◌≡◌, refl, Option, List, [], ◌∷◌, contains, filter, if◌then◌else◌, ◌==◌,
  eq_iff, eq_refl, arith,
}
use webbuilder.Json.{Json}
use webbuilder.Chat.Types.{ToolCall}
use webbuilder.ToolPresentation.{distinct, strings, recorded_files, record_of, parsed_of}
use webbuilder.ToolPresentation.Present.{present_tool}

pub IsDistinct : List String → Type 0
IsDistinct [] = Unit
IsDistinct (x ∷ xs) = (contains xs x ≡ false) × IsDistinct xs

contains-filter :
    (x z : String) (xs : List String)
    → contains (filter (λ y. not (y == x)) xs) z ≡ (if z == x then false else contains xs z)
contains-filter x z [] = ground arith
contains-filter x z (y ∷ xs) =
    ground (arith, contains-filter x z xs, eq_iff y x, eq_iff y z, eq_iff z x)

contains-distinct : (xs : List String) (z : String) → contains (distinct xs) z ≡ contains xs z
unfolding distinct
contains-distinct [] z = refl
contains-distinct (x ∷ xs) z =
    ground
      (arith, contains-filter x z (distinct xs), contains-distinct xs z, eq_iff x z, eq_iff z x)

filter-IsDistinct :
    (x : String) (xs : List String) → IsDistinct xs → IsDistinct (filter (λ y. not (y == x)) xs)
unfolding IsDistinct
filter-IsDistinct x [] h = tt
filter-IsDistinct x (y ∷ xs) (n, h) =
    ground (arith, contains-filter x y xs, filter-IsDistinct x xs h)

distinct-IsDistinct : (xs : List String) → IsDistinct (distinct xs)
unfolding IsDistinct distinct
distinct-IsDistinct [] = tt
distinct-IsDistinct (x ∷ xs) = (
  ground (arith, contains-filter x x (distinct xs), eq_refl x),
  filter-IsDistinct x (distinct xs) (distinct-IsDistinct xs),
)

-- The files of a presentation are exactly the texts that the result records as changed, read or
-- given files, and each is listed once.
pub files-present_tool :
    (parse_json : String → Option Json) (tool : ToolCall)
    → let files = (present_tool parse_json tool).files in
      IsDistinct files
      × ((file : String)
          → contains files file
            ≡ contains (strings (recorded_files (record_of (parsed_of parse_json tool)))) file)
unfolding present_tool
files-present_tool parse_json tool = (distinct-IsDistinct _, contains-distinct _)
