-- ===== src/Theme/Toggled.antt =====
-- What the button and other tabs do to the theme.
use webbuilder.Base.{
  String, Bool, true, false, not, ◌≡◌, refl, ap, ◌∙◌, Option, some, if◌then◌else◌, same_text,
  concat, Bool-cases, inl, inr,
}
use webbuilder.Theme.{
  Storage, allowed, full, blocked, Theme, get_theme, notify, theme_name, toggle, on_storage,
  data_theme, label,
}

light-toggle : (storage : Storage) (t : Theme) → (toggle storage t).light ≡ not t.light
unfolding toggle notify get_theme
light-toggle allowed t = elim (Bool-cases t.light) [ inl l ↦ rw l refl | inr d ↦ rw d refl ]
light-toggle full t = refl
light-toggle blocked t = refl

-- The button gives the theme that its label names, whether the storage takes it or not; pressed
-- again, it gives back the theme from before, whatever has become of the storage.
pub record IsSwitched (first second : Storage) (t : Theme) : Type 0 where
  pub named : label t ≡ concat "Switch to " (concat (data_theme (toggle first t)) " mode")
  pub back : data_theme (toggle second (toggle first t)) ≡ data_theme t
  pub follows :
      (value : Option String)
      → (on_storage allowed (some "webbuilder-theme") value (toggle first t)).light
        ≡ same_text value (some "light")

named_of :
    (before after : Bool)
    → after ≡ not before
    → (if before then "dark" else "light") ≡ theme_name after
named_of true after h = rw h refl
named_of false after h = rw h refl

not-not : (b : Bool) → not (not b) ≡ b
not-not true = refl
not-not false = refl

-- Whatever the storage allows, the button gives the theme that its label names; pressed again, it
-- gives back the theme from before, whatever has become of the storage meanwhile; and when another
-- tab then writes a theme that can be read, that one is shown.
pub toggle-IsSwitched : (first second : Storage) (t : Theme) → IsSwitched first second t
unfolding label on_storage notify get_theme
toggle-IsSwitched first second t = record {
  named =
      ap (λ (name : String). concat "Switch to " (concat name " mode"))
        (named_of t.light _ (light-toggle first t));
  back =
      ap theme_name
        (light-toggle second (toggle first t) ∙ ap not (light-toggle first t) ∙ not-not t.light);
  follows = λ value. refl;
}
