-- ===== src/Auth/Identity/Tests.antt =====
-- A card that is edited twice, first to a blank name.
use webbuilder.Base.{String, ◌≡◌, refl, true, false, Option, none, some, List, [], ◌∷◌}
use webbuilder.Base.Exec.{ok}
use webbuilder.Auth.Account.{UserData}
use webbuilder.Auth.Profile.{Profile}
use webbuilder.Auth.Identity.{
  Page, Event, edit_clicked, typed_name, submitted, answered, run, initials, bio_text,
}
use webbuilder.Samples.{signed_in, account, takes_all, stringify}

abbrev opened : Page
opened = record {
  card = record { editing = false; name = ""; bio = ""; restore_focus = false };
  profile = record {
    user = some account;
    options = none;
    busy = false;
    error = "";
    message = "";
    attempt = 0;
    hash = "";
    browser = signed_in;
    route = none;
    saves = [];
    notices = [];
  };
}

abbrev edits : List Event
edits =
    edit_clicked
    ∷ submitted
    ∷ typed_name "  "
    ∷ submitted
    ∷ typed_name " Ada L "
    ∷ submitted
    ∷ submitted
    ∷ answered (ok account)
    ∷ []

sent_once : (run takes_all stringify edits opened).profile.saves ≡ ("Ada L", "") ∷ []
unfolding run webbuilder.Auth.Identity.step webbuilder.Auth.Identity.submit
    webbuilder.Auth.Identity.dirty webbuilder.Auth.Identity.edit webbuilder.Auth.Identity.close
    webbuilder.Auth.Profile.save webbuilder.Auth.Profile.on_saved webbuilder.Auth.Profile.after_save
    webbuilder.Auth.Account.set_user_data webbuilder.Base.trim webbuilder.Base.slice
    webbuilder.Base.utf16_length
sent_once = refl

closed : (run takes_all stringify edits opened).card.editing ≡ false
unfolding run webbuilder.Auth.Identity.step webbuilder.Auth.Identity.submit
    webbuilder.Auth.Identity.dirty webbuilder.Auth.Identity.edit webbuilder.Auth.Identity.close
    webbuilder.Auth.Profile.save webbuilder.Auth.Profile.on_saved webbuilder.Auth.Profile.after_save
    webbuilder.Auth.Account.set_user_data webbuilder.Base.trim webbuilder.Base.slice
    webbuilder.Base.utf16_length
closed = refl

abbrev same : String → String
same s = s

letters : initials same (record account { name = "Ada  King Lovelace" }) ≡ "AK"
unfolding initials webbuilder.Base.join webbuilder.Base.split_on webbuilder.Base.trim
letters = refl
