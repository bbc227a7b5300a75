-- ===== src/Auth/Profile/Tests.antt =====
-- A profile that is saved twice at once.
use webbuilder.Base.{
  ℕ, ◌+◌, ◌≤◌, ◌≡◌, refl, String, Bool, true, false, Option, none, some, List, [], ◌∷◌, length,
  if◌then◌else◌,
}
use webbuilder.Base.Exec.{ok}
use webbuilder.Auth.Profile.{Profile, Event, attempted, loaded, saving, saved, on_saved, step, run}
use webbuilder.Samples.{signed_in, account, takes_all, takes_none, stringify}

abbrev shown : Profile
shown = record {
  user = none;
  options = none;
  busy = false;
  error = "";
  message = "";
  attempt = 0;
  hash = "";
  browser = signed_in;
  route = none;
  saves = [];
  notices = [];
}

abbrev no_provider : String → Option String
no_provider hash = none

abbrev day : List Event
day = loaded 0 (ok account) ∷ saving " Ada " "" ∷ saving "Bob" "" ∷ saved (ok account) ∷ []

saves_of_day : (run no_provider takes_all stringify day shown).saves ≡ ("Ada", "") ∷ []
unfolding run step on_saved webbuilder.Auth.Profile.after_save webbuilder.Auth.Account.set_user_data
    webbuilder.Auth.Profile.save webbuilder.Auth.Profile.on_loaded
    webbuilder.Auth.Profile.after_load webbuilder.Base.trim
saves_of_day = refl

-- the server has saved the change, and the form says that it was not
lost_answer : (on_saved takes_none stringify (ok account) shown).0 ≡ false
unfolding on_saved webbuilder.Auth.Profile.after_save webbuilder.Auth.Account.set_user_data
    webbuilder.Auth.Profile.save_failed
lost_answer = refl
