-- ===== src/Auth/CreditReset/Tests.antt =====
-- A countdown of an hour, in a page that is in the background when it ends.
use webbuilder.Base.{
  ℕ, ◌+◌, ◌*◌, ◌<◌, ◌≡◌, refl, Bool, true, false, ◌||◌, Option, none, some, List, [], ◌∷◌, any, leb,
}
use webbuilder.Auth.CreditReset.{
  CreditReset, Event, fired, visibility_changed, set_up, run, remaining_text, hours_of, minutes_of,
  rest_of,
}

abbrev opened : CreditReset
opened = record {
  deadline = some 3600000;
  remaining = none;
  completed = false;
  ticking = false;
  resets = 0;
}

abbrev late : List Event
late = fired 1000 ∷ visibility_changed 7200000 ∷ fired 7201000 ∷ visibility_changed 7300000 ∷ []

text_at_start : remaining_text (set_up 999 opened).remaining ≡ "Resets in 01h 00m 00s"
unfolding remaining_text set_up webbuilder.Auth.CreditReset.tick webbuilder.Base.number_text
text_at_start = refl

text_later : remaining_text (some 3725) ≡ "Resets in 01h 02m 05s"
unfolding remaining_text webbuilder.Base.number_text
text_later = refl
