-- ===== src/Chat/MessageBubble/Tests.antt =====
-- A message with a fence between two texts.
use webbuilder.Base.{String, suc, ◌+◌, ◌≡◌, refl, some, List, [], ◌∷◌, join}
use webbuilder.Chat.MessageBubble.{
  code_listing, paragraph, fence_text, split_fences, size, parts, message_content,
}
use webbuilder.Chat.MessageBubble.Parts.{IsTextFirst, parts-IsTextFirst}
use webbuilder.Chat.MessageBubble.Shown.{message_content-fence}

abbrev answer : String
answer = "Hi\n```ts\nlet a\n\nb\n```\nBye"

three_parts : parts answer ≡ ("Hi\n" ∷ "```ts\nlet a\n\nb\n```" ∷ "\nBye" ∷ [])
unfolding parts webbuilder.Chat.MessageBubble.split_fences webbuilder.Chat.MessageBubble.fence_at
    webbuilder.Chat.MessageBubble.after_ticks webbuilder.Chat.MessageBubble.size
    webbuilder.Chat.MessageBubble.line_end webbuilder.Chat.MessageBubble.closing
three_parts = refl

blocks :
    message_content answer
    ≡ (paragraph "Hi\n" ∷ code_listing "ts" "let a\n\nb" ∷ paragraph "\nBye" ∷ [])
unfolding message_content webbuilder.Chat.MessageBubble.show_parts parts
    webbuilder.Chat.MessageBubble.split_fences webbuilder.Chat.MessageBubble.fence_at
    webbuilder.Chat.MessageBubble.after_ticks webbuilder.Chat.MessageBubble.size
    webbuilder.Chat.MessageBubble.line_end webbuilder.Chat.MessageBubble.closing
    webbuilder.Chat.MessageBubble.show_part webbuilder.Chat.MessageBubble.match_fence
    webbuilder.Base.trim webbuilder.Chat.MessageBubble.closing_end
    webbuilder.Chat.MessageBubble.drop_newline
blocks = refl

open_fence : message_content "```ts\nlet" ≡ (paragraph "```ts\nlet" ∷ [])
unfolding message_content webbuilder.Chat.MessageBubble.show_parts parts
    webbuilder.Chat.MessageBubble.split_fences webbuilder.Chat.MessageBubble.fence_at
    webbuilder.Chat.MessageBubble.after_ticks webbuilder.Chat.MessageBubble.line_end
    webbuilder.Chat.MessageBubble.closing webbuilder.Chat.MessageBubble.size
    webbuilder.Chat.MessageBubble.show_part webbuilder.Chat.MessageBubble.match_fence
    webbuilder.Chat.MessageBubble.closing_end webbuilder.Base.trim
open_fence = refl

extra_ticks : parts "```\n````" ≡ ("" ∷ "```\n```" ∷ "`" ∷ [])
unfolding parts webbuilder.Chat.MessageBubble.split_fences webbuilder.Chat.MessageBubble.fence_at
    webbuilder.Chat.MessageBubble.after_ticks webbuilder.Chat.MessageBubble.line_end
    webbuilder.Chat.MessageBubble.closing webbuilder.Chat.MessageBubble.size
extra_ticks = refl

parts-IsTextFirst_example : (join "" (parts answer) ≡ answer) × IsTextFirst (parts answer)
parts-IsTextFirst_example = parts-IsTextFirst answer

message_content-fence_example :
    message_content (fence_text " ts " "let a\n\nb`\n") ≡ code_listing "ts" "let a\n\nb`" ∷ []
unfolding webbuilder.Chat.MessageBubble.Shown.one_line webbuilder.Chat.MessageBubble.Shown.unfenced
    webbuilder.Chat.MessageBubble.after_ticks webbuilder.Base.trim
    webbuilder.Chat.MessageBubble.drop_newline
message_content-fence_example = message_content-fence " ts " "let a\n\nb`\n" refl refl
