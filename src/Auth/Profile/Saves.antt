-- ===== src/Auth/Profile/Saves.antt =====
-- What saving a profile returns, and how often changes are sent.
use webbuilder.Base.{
  ℕ, ◌+◌, ◌≤◌, ◌≡◌, refl, String, Bool, true, false, Option, some, List, [], ◌∷◌, length,
  length-append, if◌then◌else◌, trim, arith, Bool-cases, inl, inr,
}
use webbuilder.Base.Exec.{Result, ok, err}
use webbuilder.Auth.Account.{UserData, set_user_data}
use webbuilder.Auth.Profile.{
  Profile, load, after_load, on_loaded, on_options, after_credits, on_credits, sign_out, save,
  save_failed, after_save, on_saved, connect, on_link, Event, attempted, loaded, options_loaded,
  credits_loaded, signed_out, saving, saved, connecting, linked, step, run,
}

-- `save` has returned true with the user that the server gave on show and in the storage, or false
-- with a reason of the request or of the storage; the form is free.
pub data IsAnswered (stringify : UserData → String)
    : Result UserData → Bool × Profile → Type 0 where
  done :
      {user : UserData} {p : Profile}
      → p.busy ≡ false
      → p.user ≡ some user
      → p.browser.user_data ≡ some (stringify user)
      → IsAnswered stringify (ok user) (true, p)
  not_stored :
      {user : UserData} {p : Profile}
      → p.busy ≡ false
      → p.user ≡ some user
      → IsAnswered stringify (ok user) (false, p)
  refused :
      {message : String} {p : Profile}
      → p.busy ≡ false
      → p.error ≡ message
      → IsAnswered stringify (err message) (false, p)

module _ (accepts : String → Bool) (stringify : UserData → String) where
  -- When the server has answered a save, the form is free again; `save` returns true exactly with
  -- the server's user on show and stored, and shows the reason if the server has refused.
  pub on_saved-IsAnswered :
      (answer : Result UserData) (p : Profile)
      → IsAnswered stringify answer (on_saved accepts stringify answer p)
  unfolding on_saved after_save save_failed set_user_data
  on_saved-IsAnswered (err message) p = refused refl refl
  on_saved-IsAnswered (ok user) p = elim (Bool-cases (accepts (stringify user))) [
    | inl t ↦ rw t (done refl refl refl)
    | inr f ↦ rw f (not_stored refl refl)
  ]

-- the answers that can free the form, among the events
abbrev pub is_answer : Event → ℕ
is_answer (saved answer) = 1
is_answer (linked answer) = 1
is_answer _ = 0

unfoldable pub answers : List Event → ℕ
answers [] = 0
answers (event ∷ events) = is_answer event + answers events

-- the changes that were sent, and the one that may be sent now
abbrev budget : Profile → ℕ
budget p = length p.saves + (if p.busy then 0 else 1)

module _ (provider_in : String → Option String) (accepts : String → Bool)
    (stringify : UserData → String) where
  budget-step :
      (event : Event) (p : Profile)
      → budget (step provider_in accepts stringify event p) ≤ budget p + is_answer event
  unfolding step load on_loaded after_load on_options on_credits after_credits sign_out save
      on_saved after_save save_failed connect on_link set_user_data
  budget-step attempted p = ground arith
  budget-step (loaded attempt (ok user)) p = ground arith
  budget-step (loaded attempt (err message)) p = ground arith
  budget-step (options_loaded attempt (ok options)) p = ground arith
  budget-step (options_loaded attempt (err message)) p = ground arith
  budget-step (credits_loaded (ok user)) p = ground arith
  budget-step (credits_loaded (err message)) p = ground arith
  budget-step signed_out p = ground arith
  budget-step (saving name bio) p =
      ground (arith, length-append p.saves ((trim name, trim bio) ∷ []))
  budget-step (saved (ok user)) p = ground arith
  budget-step (saved (err message)) p = ground arith
  budget-step connecting p = ground arith
  budget-step (linked (ok url)) p = ground arith
  budget-step (linked (err message)) p = ground arith

  budget-run :
      (events : List Event) (p : Profile)
      → budget (run provider_in accepts stringify events p) ≤ budget p + answers events
  unfolding run answers
  budget-run [] p = omega arith
  budget-run (event ∷ events) p =
      omega
        (arith, budget-step event p, budget-run events (step provider_in accepts stringify event p))

  -- However often the user presses, one change of the profile is sent at a time: each one after
  -- the first needs the answer to a change or to a connection.
  pub saves-run :
      (events : List Event) (p : Profile)
      → length (run provider_in accepts stringify events p).saves
        ≤ length p.saves + (if p.busy then 0 else 1) + answers events
  saves-run events p = omega (arith, budget-run events p)
