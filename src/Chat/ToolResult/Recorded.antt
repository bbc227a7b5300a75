-- ===== src/Chat/ToolResult/Recorded.antt =====
-- The section that holds the result of a call.
use webbuilder.Base.{
  String, Bool, true, false, ◌≡◌, refl, ◌∙◌, ◌⊎◌, inl, inr, Option, none, some, List, [], ◌∷◌, ◌++◌,
  if◌then◌else◌, or_else, truthy, Bool-cases, Option-cases, arith,
}
use webbuilder.Json.{Json}
use webbuilder.Chat.Types.{ToolCall, ToolStatus}
use webbuilder.ToolPresentation.{parsed_of, error_of, fallback_error, text, is_error, is_running}
use webbuilder.ToolPresentation.Present.{Presentation, present_tool}
use webbuilder.Chat.ToolResult.{
  Section, listing, notice, recorded_result, when, tool_result, result_section, failure, context,
  terminal, actions, ending, has_terminal,
}

pub IsIn : Section → List Section → Type 0
IsIn s [] = ⊥
IsIn s (x ∷ xs) = (x ≡ s) ⊎ IsIn s xs

abbrev nothing_came : ToolStatus → Section
nothing_came status =
    notice (if is_running status then "Waiting for the tool result…" else "No output was recorded.")

-- the section for the result of a call, of which `parsed` is what could be read
unfoldable pub answer : ToolStatus → (output : Option String) → (parsed : Option Json) → Section
answer status output (some json) = recorded_result json
answer status output none =
    if truthy output
    then listing (if is_error status then "error" else "output") (or_else output "")
    else nothing_came status

IsIn-append-left : (s : Section) (xs ys : List Section) → IsIn s xs → IsIn s (xs ++ ys)
unfolding IsIn
IsIn-append-left s [] ys h = absurd h
IsIn-append-left s (x ∷ xs) ys (inl e) = inl e
IsIn-append-left s (x ∷ xs) ys (inr h) = inr (IsIn-append-left s xs ys h)

IsIn-append-right : (s : Section) (xs ys : List Section) → IsIn s ys → IsIn s (xs ++ ys)
unfolding IsIn
IsIn-append-right s [] ys h = h
IsIn-append-right s (x ∷ xs) ys h = inr (IsIn-append-right s xs ys h)

IsIn-when : (s : Section) (b : Bool) → b ≡ true → IsIn s (when b s)
unfolding IsIn
IsIn-when s b h = rw h (inl refl)

-- A section is where one of the last four parts has it.
IsIn-part :
    (tool : ToolCall) (r : Presentation) (s : Section)
    → (IsIn s (failure r) ⊎ IsIn s (result_section r.error tool.output r.parsed))
      ⊎ IsIn s (ending tool r)
    → IsIn s (tool_result tool r)
unfolding tool_result
IsIn-part tool r s h =
    let result = result_section r.error tool.output r.parsed in
    let opening = context r ++ terminal r in
    elim h [
      | inl (inl f) ↦
          IsIn-append-left s (opening ++ failure r ++ result ++ actions tool r) (ending tool r) (
            IsIn-append-left s (opening ++ failure r ++ result) (actions tool r) (
              IsIn-append-left s (opening ++ failure r) result
                (IsIn-append-right s opening (failure r) f)))
      | inl (inr f) ↦
          IsIn-append-left s (opening ++ failure r ++ result ++ actions tool r) (ending tool r) (
            IsIn-append-left s (opening ++ failure r ++ result) (actions tool r)
              (IsIn-append-right s (opening ++ failure r) result f))
      | inr e ↦
          IsIn-append-right s (opening ++ failure r ++ result ++ actions tool r) (ending tool r) e
    ]

ending-says :
    (tool : ToolCall) (r : Presentation)
    → r.parsed ≡ none
    → truthy tool.output ≡ false
    → IsIn (nothing_came tool.status) (ending tool r)
unfolding ending IsIn
ending-says tool r p o = rw (p, o) (inl refl)

failure-says :
    (r : Presentation) (output : Option String)
    → truthy output ≡ true
    → has_terminal r ≡ false
    → r.error ≡ or_else output ""
    → IsIn (listing "error" (or_else output "")) (failure r)
unfolding failure IsIn
failure-says r none o t e = absurd (ground (arith, o))
failure-says r (some text) o t e = rw (e, t, o) (inl refl)

result_section-says :
    (r : Presentation) (output : Option String)
    → truthy output ≡ true
    → r.parsed ≡ none
    → r.error ≡ ""
    → IsIn (listing "output" (or_else output "")) (result_section r.error output r.parsed)
unfolding IsIn
result_section-says r output o p e = rw (p, o, e) (inl refl)

says_read :
    (r : Presentation) (output : Option String) (json : Json)
    → r.parsed ≡ some json
    → IsIn (recorded_result json) (result_section r.error output r.parsed)
unfolding IsIn
says_read r output json p = rw p (inl refl)

unread :
    (tool : ToolCall) (r : Presentation)
    → r.parsed ≡ none
    → has_terminal r ≡ false
    → r.error ≡ (if is_error tool.status then or_else tool.output "" else "")
    → IsIn (answer tool.status tool.output none) (tool_result tool r)
unfolding answer
unread tool r p t e = elim (Bool-cases (truthy tool.output)) [
  | inr o ↦ rw o (IsIn-part tool r _ (inr (ending-says tool r p o)))
  | inl o ↦ rw o (elim (Bool-cases (is_error tool.status)) [
    | inl f ↦ rw f (IsIn-part tool r _ (inl (inl (failure-says r tool.output o t (rw f at e)))))
    | inr f ↦
        rw f (IsIn-part tool r _ (inl (inr (result_section-says r tool.output o p (rw f at e)))))
  ])
]

no_terminal :
    (parse_json : String → Option Json) (tool : ToolCall)
    → parsed_of parse_json tool ≡ none
    → has_terminal (present_tool parse_json tool) ≡ false
unfolding present_tool text
no_terminal parse_json tool n = rw n refl

error_unread :
    (parse_json : String → Option Json) (tool : ToolCall)
    → parsed_of parse_json tool ≡ none
    → (present_tool parse_json tool).error
      ≡ (if is_error tool.status then or_else tool.output "" else "")
unfolding present_tool error_of fallback_error text
error_unread parse_json tool n = rw n refl

parsed-present_tool :
    (parse_json : String → Option Json) (tool : ToolCall)
    → (present_tool parse_json tool).parsed ≡ parsed_of parse_json tool
unfolding present_tool
parsed-present_tool parse_json tool = refl

-- Whatever has become of a call, its row says what came of it: the result that could be read; or
-- the text that the call put out, as an error if it failed; or that it has none, or none yet.
pub answer-tool_result :
    (parse_json : String → Option Json) (tool : ToolCall)
    → IsIn
        (answer tool.status tool.output (parsed_of parse_json tool))
        (tool_result tool (present_tool parse_json tool))
unfolding answer
answer-tool_result parse_json tool =
    let r = present_tool parse_json tool in
    let parsed = parsed-present_tool parse_json tool in
    elim (Option-cases (parsed_of parse_json tool)) [
      | inl n ↦ rw n (
          unread tool r (parsed ∙ n) (no_terminal parse_json tool n)
            (error_unread parse_json tool n))
      | inr (json, e) ↦
          rw e (IsIn-part tool r _ (inl (inr (says_read r tool.output json (parsed ∙ e)))))
    ]
