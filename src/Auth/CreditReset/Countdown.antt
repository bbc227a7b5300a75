-- ===== src/Auth/CreditReset/Countdown.antt =====
-- When a countdown is over.
use webbuilder.Base.{
  ℕ, ◌+◌, ◌*◌, ◌<◌, ◌≡◌, refl, ap, ◌∙◌, Bool, true, false, not, ◌&&◌, ◌||◌, some, List, [], ◌∷◌,
  if◌then◌else◌, any, leb, arith,
}
use webbuilder.Auth.CreditReset.{
  CreditReset, Event, fired, visibility_changed, tick, start, set_up, step, run, hours_of,
  minutes_of, rest_of,
}

abbrev pub time_of : Event → ℕ
time_of (fired now) = now
time_of (visibility_changed now) = now

abbrev pub is_due : (deadline : ℕ) → Event → Bool
is_due deadline event = leb deadline (time_of event)

-- one call, if there is an event at the deadline or after it
abbrev pub calls : Bool → ℕ
calls due = if due then 1 else 0

module _ (deadline : ℕ) where
  resets-step :
      (event : Event) (c : CreditReset)
      → c.ticking ≡ not c.completed
      → let c' = step deadline event c in
        (c'.ticking ≡ not c'.completed)
        × (c'.completed ≡ c.completed || is_due deadline event)
        × (c'.resets ≡ c.resets + calls (not c.completed && is_due deadline event))
  unfolding step tick
  resets-step (fired now) c t = ground (arith, t)
  resets-step (visibility_changed now) c t = ground (arith, t)

  resets-run :
      (events : List Event) (c : CreditReset)
      → c.ticking ≡ not c.completed
      → (run deadline events c).resets
        ≡ c.resets + calls (not c.completed && any (is_due deadline) events)
  unfolding run
  resets-run [] c t = ground arith
  resets-run (event ∷ events) c t =
      let (ticks, ends, counts) = resets-step event c t in
      ground (arith, ticks, ends, counts, resets-run events (step deadline event c) ticks)

  -- If the deadline is a date: from the setup of the effect on, `onReset` is called once if the interval fires or the page
  -- changes its visibility at the deadline or later, or the setup is that late, and never if not.
  pub resets-set_up :
      (now : ℕ) (events : List Event) (c : CreditReset)
      → c.deadline ≡ some deadline
      → (run deadline events (set_up now c)).resets
        ≡ c.resets + calls (leb deadline now || any (is_due deadline) events)
  unfolding set_up run step
  resets-set_up now events c d =
      ap (λ o. (run deadline events (start o now c)).resets) d
      ∙ resets-run (visibility_changed now ∷ events)
          (record c { completed = false; ticking = true }) refl

-- The three numbers that are shown make up the seconds, with less than 60 minutes and seconds.
pub hours_of-minutes_of :
    (seconds : ℕ)
    → (hours_of seconds * 3600 + minutes_of seconds * 60 + rest_of seconds ≡ seconds)
      × (minutes_of seconds < 60)
      × (rest_of seconds < 60)
hours_of-minutes_of seconds = (omega arith, omega arith, omega arith)
