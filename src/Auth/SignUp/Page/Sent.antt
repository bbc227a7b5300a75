-- ===== src/Auth/SignUp/Page/Sent.antt =====
-- When a registration is sent.
use webbuilder.Base.{
  String, Bool, true, false, not, ◌&&◌, ◌||◌, ◌≡◌, refl, sym, if_keeps, ◌⊎◌, inl, inr, [], ◌∷◌,
  ◌++◌, Bool-cases, arith,
}
use webbuilder.Auth.SignUp.{handle_submit}
use webbuilder.Auth.SignUp.Page.{
  Page, verifies, submit_disabled, Event, typed_name, typed_email, typed_password, submitted,
  registered, options_loaded, is_valid, can_submit, submit, step,
}

-- What was typed was posted, once, the fields are what the form asks for, the accounts are open,
-- none is waited for or registered, and from now on one is waited for.
pub record IsSent (is_email : String → Bool) (before after : Page) : Type 0 where
  pub posted : after.sent ≡ before.sent ++ before.fields ∷ []
  pub valid : is_valid is_email before.fields ≡ true
  pub open_accounts : verifies before.options ≡ true
  pub idle : before.form.is_loading ≡ false
  pub unregistered : before.form.registered ≡ false
  pub waits : after.form.is_loading ≡ true

both : (a b : Bool) → (a && b) ≡ true → (a ≡ true) × (b ≡ true)
both true b h = (refl, h)
both false b h = absurd (ground (arith, h))

neither : (a b : Bool) → not (a || not b) ≡ true → (a ≡ false) × (b ≡ true)
neither true b h = absurd (ground (arith, h))
neither false true h = (refl, refl)
neither false false h = absurd (ground (arith, h))

not-false : (b : Bool) → not b ≡ true → b ≡ false
not-false true h = sym h
not-false false h = refl

IsSent-of :
    (is_email : String → Bool) (p : Page)
    → can_submit is_email p ≡ true
    → IsSent is_email p (record p { form = handle_submit p.form; sent = p.sent ++ p.fields ∷ [] })
unfolding can_submit submit_disabled handle_submit
IsSent-of is_email p t =
    let (ready, valid) = both _ _ t in
    let (fresh, enabled) = both _ _ ready in
    let (idle, accounts) = neither p.form.is_loading (verifies p.options) enabled in
    record {
      posted = refl;
      valid = valid;
      open_accounts = accounts;
      idle = idle;
      unregistered = not-false p.form.registered fresh;
      waits = refl;
    }

submit-sent :
    (is_email : String → Bool) (p : Page)
    → ((submit is_email p).sent ≡ p.sent) ⊎ IsSent is_email p (submit is_email p)
unfolding submit
submit-sent is_email p = elim (Bool-cases (can_submit is_email p)) [
  | inr f ↦ inl (rw f refl)
  | inl t ↦ inr (rw t (IsSent-of is_email p t))
]

-- An event sends no registration, or it submits the form, and then what was typed is sent, once,
-- while it is valid, accounts are open, and none is waited for or registered.
pub step-sent :
    (is_email : String → Bool) (event : Event) (p : Page)
    → ((step is_email event p).sent ≡ p.sent)
      ⊎ ((event ≡ submitted) × IsSent is_email p (step is_email event p))
unfolding step
step-sent is_email (typed_name text) p =
    inl (if_keeps (λ (q : Page). q.sent ≡ p.sent) p.form.is_loading refl refl)
step-sent is_email (typed_email text) p =
    inl (if_keeps (λ (q : Page). q.sent ≡ p.sent) p.form.is_loading refl refl)
step-sent is_email (typed_password text) p =
    inl (if_keeps (λ (q : Page). q.sent ≡ p.sent) p.form.is_loading refl refl)
step-sent is_email submitted p = elim (submit-sent is_email p) [
  | inl same ↦ inl same
  | inr posted ↦ inr (refl, posted)
]
step-sent is_email (registered answer) p = inl refl
step-sent is_email (options_loaded answer) p = inl refl
