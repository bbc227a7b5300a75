-- ===== src/Theme/Tests.antt =====
-- The button in a storage that is full, then in one that is not.
use webbuilder.Base.{◌≡◌, refl, true, false, none, some}
use webbuilder.Theme.{Theme, allowed, full, blocked, toggle, on_storage, label}
use webbuilder.Theme.Toggled.{IsSwitched, toggle-IsSwitched}

abbrev dark : Theme
dark = record { stored = none; fallback_light = none; light = false }

kept_by_the_page :
    toggle full dark ≡ record { stored = none; fallback_light = some true; light = true }
unfolding toggle webbuilder.Theme.notify webbuilder.Theme.get_theme
kept_by_the_page = refl

stored_again : (toggle allowed (toggle full dark)).stored ≡ some "dark"
unfolding toggle webbuilder.Theme.notify webbuilder.Theme.get_theme
stored_again = refl

label_of_dark : label dark ≡ "Switch to light mode"
unfolding label
label_of_dark = refl

toggle-IsSwitched_example : IsSwitched full allowed dark
toggle-IsSwitched_example = toggle-IsSwitched full allowed dark
