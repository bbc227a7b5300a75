-- ===== src/ToolPresentation/Summary.antt =====
-- The summary of a presentation.
use Prim.Native.Char.{Char}
use text.Mathlib.TextLemmas.{cons-append, nil-append, cons≢nil}
use webbuilder.Base.{
  ◌≤◌, utf16_length, utf16_length-slice, slice, ℕ, String, true, false, not, ◌≡◌, ◌≢◌, refl, Option,
  if◌then◌else◌, if_keeps, concat, is_empty, truthy, is_some, or_else, eqb, ◌==◌, ◌&&◌, eq_iff,
  arith, Bool-cases, inl, inr, find, trim, number_text, length,
}
use webbuilder.Json.{Json, Fields}
use webbuilder.Chat.Types.{ToolCall, ToolStatus}
use webbuilder.Chat.Events.{settle}
use webbuilder.ToolPresentation.{
  is_array, is_truthy, is_interrupted, is_error, is_running, is_true, number_of, value_of,
  split_lines, strings,
}
use webbuilder.ToolPresentation.Present.{
  present_tool, summary_of, error_summary, files_summary, references_summary, result_summary,
}

abbrev IsSaid : String → Type 0
IsSaid s = is_empty s ≡ false

IsSaid-of_ne : (u : String) → u ≢ "" → IsSaid u
IsSaid-of_ne u n = ground (arith, eq_iff u "", n)

cons-IsSaid : (c : Char) (s : String) → IsSaid (String.◌∷◌ c s)
cons-IsSaid c s = IsSaid-of_ne (String.◌∷◌ c s) (λ e. cons≢nil e)

IsSaid-concat : (s t : String) → IsSaid t → IsSaid (concat s t)
IsSaid-concat String.[] t h = rw (nil-append t) h
IsSaid-concat (String.◌∷◌ c s) t h = rw (cons-append c s t) (cons-IsSaid c (concat s t))

concat-IsSaid : (s t : String) → IsSaid s → IsSaid (concat s t)
concat-IsSaid String.[] t h = cc
concat-IsSaid (String.◌∷◌ c s) t h = rw (cons-append c s t) (cons-IsSaid c (concat s t))

files_summary-IsSaid : (count : ℕ) (fields : Option Fields) → IsSaid (files_summary count fields)
unfolding files_summary
files_summary-IsSaid count fields = IsSaid-concat (number_text count) _ (
    IsSaid-concat " " _ (
      IsSaid-concat _ _ (
        IsSaid-concat " " _ (
          if_keeps IsSaid (is_array (value_of fields "paths")) refl
            (if_keeps IsSaid (is_truthy (value_of fields "changed_files")) refl refl)))))

error_summary-IsSaid : (error : String) → IsSaid (error_summary error)
unfolding error_summary
error_summary-IsSaid error =
    said_or_default
      (slice 220 (or_else (find (λ l. not (is_empty l)) (split_lines (trim error))) ""))
  where
    said_or_default :
        (line : String)
        → IsSaid (if is_empty line then "This operation did not complete successfully." else line)
    said_or_default line = elim (Bool-cases (is_empty line)) [ inl e ↦ rw e refl | inr e ↦ rw e e ]

result_summary-IsSaid :
    (tool : ToolCall) (fields : Option Fields) (count : ℕ)
    → IsSaid (result_summary tool fields count)
unfolding result_summary references_summary
result_summary-IsSaid tool fields count =
    if_keeps IsSaid (not (eqb count 0)) (files_summary-IsSaid count fields) (
      if_keeps IsSaid (is_some (value_of fields "message_ids"))
        (IsSaid-concat _ _ (
          IsSaid-concat " matching " _
            (if_keeps IsSaid (eqb (length (strings (value_of fields "message_ids"))) 1) refl refl)))
        (if_keeps IsSaid (tool.name == "inspect_preview" && is_true (value_of fields "checked"))
          (IsSaid-concat _ " preview inspected" refl)
          (if_keeps IsSaid (is_some (number_of (value_of fields "exit_code")))
            (concat-IsSaid "Exited with code " _ refl)
            (if_keeps IsSaid (is_running tool.status) refl
              (if_keeps IsSaid (truthy tool.output) refl refl)))))

-- A presentation always has something to say.
pub summary-present_tool :
    (parse_json : String → Option Json) (tool : ToolCall)
    → (present_tool parse_json tool).summary ≢ ""
unfolding present_tool summary_of
summary-present_tool parse_json tool =
    let said : IsSaid (present_tool parse_json tool).summary =
      if_keeps IsSaid (is_interrupted tool) refl (
        if_keeps IsSaid (is_error tool.status) (error_summary-IsSaid _)
          (result_summary-IsSaid tool _ _)) in
    λ e. ground (arith, eq_iff (present_tool parse_json tool).summary "")

-- A call that was running when its run ended is presented as interrupted, whatever it records.
pub present_tool-settle :
    (parse_json : String → Option Json) (call : ToolCall)
    → call.status ≡ ToolStatus.running
    → let p = present_tool parse_json (settle call) in
      (p.interrupted ≡ true) × (p.summary ≡ "The run ended before this tool returned a result.")
unfolding present_tool summary_of settle
present_tool-settle parse_json call r = rw r (refl, refl)

-- The reason that is shown for a failed call has 220 characters at most.
pub utf16_length-error_summary : (error : String) → utf16_length (error_summary error) ≤ 220
unfolding error_summary utf16_length
utf16_length-error_summary error =
    let line = or_else (find (λ l. not (is_empty l)) (split_lines (trim error))) "" in
    if_keeps (λ s. utf16_length s ≤ 220) (is_empty (slice 220 line)) (omega arith)
      (utf16_length-slice 220 line)
