-- ===== src/Chat/MessageBubble/Shown.antt =====
-- How a message that is one code fence is shown.
use Prim.Native.Char.{Char}
use text.Mathlib.TextLemmas.{nil-append, cons-append}
use webbuilder.Base.{
  ℕ, suc, ◌<◌, String, Bool, true, false, not, ◌&&◌, is_some, one_char, ◌≡◌, refl, sym, ◌∙◌, ap,
  Option, none, some, [], ◌∷◌, concat, is_empty, trim, if◌then◌else◌, arith,
}
use webbuilder.Chat.MessageBubble.{
  Fence, widen, after_ticks, line_end, closing, fence_at, fence_text, after_fence, split_fences,
  size, parts, match_fence, code_listing, drop_newline, code_block, show_part, show_parts,
  message_content,
}
use webbuilder.Chat.MessageBubble.Finds.{three_ticks, line_end-newline}
use webbuilder.Chat.MessageBubble.Matches.{fence_at-Matches, size-concat}
use webbuilder.Chat.MessageBubble.Parts.{split_fences-nil}
use webbuilder.ToolPresentation.{is_newline}

-- no character ends a line
unfoldable pub one_line : String → Bool
one_line String.[] = true
one_line (String.◌∷◌ c s) = not (is_newline c) && one_line s

-- nowhere in the code do three backticks begin, not even with those of the fence that ends it
unfoldable pub unfenced : String → Bool
unfenced String.[] = true
unfenced (String.◌∷◌ c s) =
    not (is_some (after_ticks 3 (concat (String.◌∷◌ c s) "```"))) && unfenced s

both : (a b : Bool) → (not a && b) ≡ true → (a ≡ false) × (b ≡ true)
both true b h = absurd (ground (arith, h))
both false b h = (refl, h)

line_end-one_line :
    (language rest : String)
    → one_line language ≡ true
    → line_end (concat language (concat "\n" rest))
      ≡ some (record { before = language; after = rest })
unfolding one_line line_end
line_end-one_line String.[] rest h =
    ap line_end (nil-append (concat "\n" rest) ∙ one_char "\n" rest)
    ∙ line_end-newline "\n" rest refl
line_end-one_line (String.◌∷◌ c s) rest h =
    let (f, l) = both (is_newline c) (one_line s) h in
    rw (cons-append c s (concat "\n" rest), f, line_end-one_line s rest l) refl

none_of : {A : Type 0} (o : Option A) → is_some o ≡ false → o ≡ none
none_of none h = refl
none_of (some a) h = absurd (ground (arith, h))

closing-skip :
    (c : Char) (s : String)
    → after_ticks 3 (String.◌∷◌ c s) ≡ none
    → closing (String.◌∷◌ c s) ≡ widen c (closing s)
unfolding closing
closing-skip c s e = rw e refl

closing-unfenced :
    (code : String)
    → unfenced code ≡ true
    → closing (concat code "```") ≡ some (record { before = code; after = "" })
unfolding unfenced closing after_ticks
closing-unfenced String.[] h = refl
closing-unfenced (String.◌∷◌ c s) h =
    let (f, l) = both (is_some (after_ticks 3 (concat (String.◌∷◌ c s) "```"))) (unfenced s) h in
    ap closing (cons-append c s "```")
    ∙ closing-skip c (concat s "```") (
        ap (after_ticks 3) (sym (cons-append c s "```"))
        ∙ none_of (after_ticks 3 (concat (String.◌∷◌ c s) "```")) f)
    ∙ ap (widen c) (closing-unfenced s l)

abbrev fence : (language code : String) → Fence
fence language code = record { language = language; code = code; after = "" }

fence_at-fence :
    (language code : String)
    → one_line language ≡ true
    → unfenced code ≡ true
    → fence_at (fence_text language code) ≡ some (fence language code)
unfolding fence_at
fence_at-fence language code l c =
    rw
      (
        three_ticks (concat language (concat "\n" (concat code "```"))),
        line_end-one_line language (concat code "```") l,
        closing-unfenced code c,
      )
      refl

size-fence_text : (language code : String) → 0 < size (fence_text language code)
unfolding size
size-fence_text language code =
    omega (arith, size-concat "```" (concat language (concat "\n" (concat code "```"))))

split_fences-found :
    (fuel : ℕ) (s : String) (f : Fence)
    → fence_at s ≡ some f
    → split_fences (suc fuel) s ≡ after_fence f (split_fences fuel f.after)
unfolding split_fences fence_at after_ticks
split_fences-found fuel String.[] f e = absurd (ground (arith, e))
split_fences-found fuel (String.◌∷◌ c s) f e = rw (e, split_fences) refl

parts-fence :
    (language code : String)
    → one_line language ≡ true
    → unfenced code ≡ true
    → parts (fence_text language code) ≡ "" ∷ fence_text language code ∷ "" ∷ []
unfolding parts
parts-fence language code l c =
    rw
      (
        split_fences-found (size (fence_text language code)) (fence_text language code) _
            (fence_at-fence language code l c),
        split_fences-nil (size (fence_text language code)) (size-fence_text language code),
      )
      refl

show_part-nil : show_part "" ≡ []
unfolding show_part match_fence after_ticks trim
show_part-nil = refl

show_part-fence :
    (language code : String)
    → one_line language ≡ true
    → unfenced code ≡ true
    → show_part (fence_text language code) ≡ code_block (fence language code) ∷ []
unfolding show_part
show_part-fence language code l c =
    let matches : match_fence (fence_text language code) ≡ some (fence language code) =
      rw (fence_at-fence language code l c) at (fence_at-Matches (fence_text language code)) in
    rw (matches, show_part) refl

-- A message that is one code fence, with a language and a code of any lines that holds no fence
-- itself, is shown as one listing: of that code, without a last empty line, in that language or
-- `code`.
pub message_content-fence :
    (language code : String)
    → one_line language ≡ true
    → unfenced code ≡ true
    → message_content (fence_text language code)
      ≡ code_listing
          (if is_empty (trim language) then "code" else trim language)
          (drop_newline code)
        ∷ []
unfolding message_content show_parts
message_content-fence language code l c =
    rw (parts-fence language code l c, show_part-fence language code l c, show_part-nil) refl
