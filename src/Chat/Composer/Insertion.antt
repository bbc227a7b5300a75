-- ===== src/Chat/Composer/Insertion.antt =====
-- A prompt that is put into the text.
use text.Mathlib.TextLemmas.{append_assoc, append-nil, cons-append}
use webbuilder.Base.{
  String, Bool, true, false, not, ◌&&◌, ◌≡◌, refl, sym, ◌∙◌, ap, ◌⊎◌, inl, inr, if◌then◌else◌,
  is_empty, concat, eq_iff, is_empty-cons,
}
use webbuilder.Chat.Composer.{ends_in_space, insert}

-- The text is what was typed, then a gap, then the prompt; and what is before the prompt is empty
-- or ends in white space.
pub record IsApart (input prompt text : String) : Type 0 where
  pub gap : String
  pub kept : text ≡ concat (concat input gap) prompt
  pub apart : (concat input gap ≡ "") ⊎ (ends_in_space (concat input gap) ≡ true)

spaced-IsLong : (s : String) → is_empty (concat s " ") ≡ false
spaced-IsLong String.[] = refl
spaced-IsLong (String.◌∷◌ c s) = rw (cons-append c s " ") (is_empty-cons c (concat s " "))

ends_in_space-concat : (s : String) → ends_in_space (concat s " ") ≡ true
unfolding ends_in_space
ends_in_space-concat String.[] = refl
ends_in_space-concat (String.◌∷◌ c s) =
    rw (cons-append c s " ", spaced-IsLong s) (ends_in_space-concat s)

abbrev gap_for : (blank spaced : Bool) → String
gap_for blank spaced = if not blank && not spaced then " " else ""

apart_of :
    (input : String) (b e : Bool)
    → is_empty input ≡ b
    → ends_in_space input ≡ e
    → (concat input (gap_for b e) ≡ "") ⊎ (ends_in_space (concat input (gap_for b e)) ≡ true)
apart_of input true e h k = inl (append-nil input ∙ (eq_iff input "").0 h)
apart_of input false true h k = inr (ap ends_in_space (append-nil input) ∙ k)
apart_of input false false h k = inr (ends_in_space-concat input)

-- Whatever was typed, choosing a prompt keeps it at the beginning and ends the text with the
-- prompt, and the prompt is never joined to a word before it.
pub insert-IsApart : (input prompt : String) → IsApart input prompt (insert input prompt)
unfolding insert
insert-IsApart input prompt = record {
  gap = gap_for (is_empty input) (ends_in_space input);
  kept = sym (append_assoc input _ prompt);
  apart = apart_of input (is_empty input) (ends_in_space input) refl refl;
}
