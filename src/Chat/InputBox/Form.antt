-- ===== src/Chat/InputBox/Form.antt =====
-- What the form sends.
use webbuilder.Base.{
  Bool, true, false, not, ◌||◌, ◌≡◌, refl, ap, ◌∙◌, Bool-cases, inl, inr, [], ◌∷◌, ◌++◌, All,
  is_empty, trim, if◌then◌else◌,
}
use webbuilder.Chat.NewProject.{NewProject, Brief, handle_submit, starter_briefs}
use webbuilder.Chat.InputBox.{
  InputBox, controls_disabled, submit_disabled, press_submit, choose_starter,
}

guards :
    {A : Type 0} (loading known blank : Bool) (kept sent : A)
    → (if loading || not known || blank
        then kept
        else if blank || loading || not known
        then kept
        else sent)
      ≡ (if blank || loading || not known then kept else sent)
guards true known true kept sent = refl
guards true known false kept sent = refl
guards false true true kept sent = refl
guards false false true kept sent = refl
guards false true false kept sent = refl
guards false false false kept sent = refl

-- The button refuses exactly what `handleSubmit` refuses: it does what that does.
press_submit-eq : (p : NewProject) → press_submit p ≡ handle_submit p
unfolding press_submit submit_disabled controls_disabled handle_submit
press_submit-eq p = guards p.is_loading p.is_authenticated (is_empty (trim p.input)) p _

-- An example can be sent as it is.
abbrev IsSendable : Brief → Type 0
IsSendable starter = (trim starter.prompt ≡ starter.prompt) × (is_empty starter.prompt ≡ false)

starters-IsSendable : All IsSendable starter_briefs
unfolding trim
starters-IsSendable = ((refl, refl), ((refl, refl), ((refl, refl), tt)))

abbrev pub Sends : NewProject → InputBox → Brief → Type 0
Sends p box starter =
    (press_submit (choose_starter starter p box).0).created
    ≡ (if controls_disabled p then p.created else p.created ++ starter.prompt ∷ [])

sent_prompt :
    (starter : Brief) (p : NewProject)
    → IsSendable starter
    → controls_disabled p ≡ false
    → (handle_submit (record p { input = starter.prompt })).created
      ≡ p.created ++ starter.prompt ∷ []
unfolding handle_submit controls_disabled
sent_prompt starter p (t, e) c = rw (t, e, c) refl

disabled-press_submit : (p : NewProject) → controls_disabled p ≡ true → press_submit p ≡ p
unfolding press_submit submit_disabled
disabled-press_submit p h = rw h refl

Sends-of :
    (p : NewProject) (box : InputBox) (starter : Brief) → IsSendable starter → Sends p box starter
unfolding choose_starter
Sends-of p box starter h = elim (Bool-cases (controls_disabled p)) [
  | inl d ↦ rw d (ap (λ (q : NewProject). q.created) (disabled-press_submit p d))
  | inr e ↦
      rw e (ap (λ (q : NewProject). q.created) (press_submit-eq _) ∙ sent_prompt starter p h e)
]

-- The button of the form does exactly what `handleSubmit` does: it is disabled only where that
-- refuses too. An example that is chosen and sent, whatever stood in the field, creates a chat with
-- exactly its prompt, or nothing while the controls are disabled.
pub press_submit-Sends :
    (p : NewProject) (box : InputBox)
    → (press_submit p ≡ handle_submit p) × All (Sends p box) starter_briefs
press_submit-Sends p box =
    let (first, (second, (third, _))) = starters-IsSendable in
    (
      press_submit-eq p,
      (Sends-of p box _ first, (Sends-of p box _ second, (Sends-of p box _ third, tt))),
    )
