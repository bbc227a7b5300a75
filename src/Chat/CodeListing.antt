-- ===== src/Chat/CodeListing.antt =====
-- The lines of a listing: frontend/components/chat/CodeListing.tsx.
use webbuilder.Base.{
  ℕ, suc, String, Option, none, some, List, [], ◌∷◌, split_on, starts_with, is_empty, ◌==◌,
  if◌then◌else◌,
}
use webbuilder.ToolPresentation.{is_newline}

pub data Mark : Type 0 where
  add remove : Mark

pub record Line : Type 0 where
  pub number : ℕ
  pub mark : Option Mark
  pub text : String

abbrev pub mark_of : (language line : String) → Option Mark
mark_of language line =
    if language == "diff"
    then if starts_with line "+"
      then some Mark.add
      else if starts_with line "-"
      then some Mark.remove
      else none
    else none

unfoldable pub lines_from : ℕ → String → List String → List Line
lines_from index language [] = []
lines_from index language (line ∷ rest) =
    record {
      number = suc index;
      mark = mark_of language line;
      text = if is_empty line then " " else line;
    }
    ∷ lines_from (suc index) language rest

unfoldable pub lines : (language value : String) → List Line
lines language value = lines_from 0 language (split_on is_newline value)
