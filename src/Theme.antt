-- ===== src/Theme.antt =====
-- The theme: frontend/components/layout/ThemeProvider.tsx. What `localStorage` allows is a
-- `Storage`, which may be another one at every call.
pub mod Toggled
mod Tests
use webbuilder.Base.{
  String, Bool, true, false, not, ◌||◌, Option, none, some, List, [], ◌∷◌, if◌then◌else◌, same_text,
  is_some, concat, ◌==◌,
}

-- everything is allowed; only reading is (it is full); nothing is
pub data Storage : Type 0 where
  allowed full blocked : Storage

pub record Theme : Type 0 where
  pub stored : Option String
  pub fallback_light : Option Bool
  -- what has been rendered last
  pub light : Bool

abbrev pub stored_light : Storage → Option String → Bool
stored_light blocked stored = false
stored_light _ stored = same_text stored (some "light")

unfoldable pub get_theme : Storage → Theme → Bool
get_theme storage t = elim (t.fallback_light) [
  | some light ↦ light
  | none ↦ stored_light storage t.stored
]

-- a listener of the external store: the provider renders again
unfoldable pub notify : Storage → Theme → Theme
notify storage t = record t { light = get_theme storage t }

abbrev pub theme_name : Bool → String
theme_name light = if light then "light" else "dark"

-- the `try` of `toggle`: whether the storage takes the theme
abbrev pub save : Storage → (next : Bool) → Theme → Theme
save allowed next t = record t { stored = some (theme_name next); fallback_light = none }
save _ next t = record t { fallback_light = some next }

unfoldable pub toggle : Storage → Theme → Theme
toggle storage t = notify storage (save storage (not t.light) t)

-- `onStorage`: another tab has written `value` at `key`, or cleared the storage if there is no key
unfoldable pub on_storage : Storage → (key value : Option String) → Theme → Theme
on_storage storage key value t =
    let ours = same_text key (some "webbuilder-theme") || not (is_some key) in
    if ours
    then notify storage
        (record t { stored = if is_some key then value else none; fallback_light = none })
    else t

-- `document.documentElement.dataset.theme`
abbrev pub data_theme : Theme → String
data_theme t = theme_name t.light

-- the label of the button
unfoldable pub label : Theme → String
label t = concat "Switch to " (concat (if t.light then "dark" else "light") " mode")
