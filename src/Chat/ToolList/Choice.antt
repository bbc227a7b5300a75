-- ===== src/Chat/ToolList/Choice.antt =====
-- What opening or closing a row does.
use webbuilder.Base.{
  Bool, true, false, not, ◌||◌, ◌≡◌, refl, Option, none, some, or_else, is_some, if◌then◌else◌,
}
use webbuilder.Chat.Types.{ToolCall}
use webbuilder.ToolPresentation.{is_error}
use webbuilder.Chat.ToolList.{Row, expanded, on_toggle}

abbrev pub differs : Bool → Bool → Bool
differs true b = not b
differs false b = b

-- the row after `onToggle`, where `failed` says how it stands without a choice
abbrev toggled : (opened failed : Bool) → Option Bool → Row
toggled opened failed choice =
    if (if or_else choice failed then not opened else opened)
    then record { choice = some opened }
    else record { choice = choice }

now :
    (opened failed : Bool) (choice : Option Bool)
    → or_else (toggled opened failed choice).choice failed ≡ opened
now true true none = refl
now true false none = refl
now false true none = refl
now false false none = refl
now true failed (some true) = refl
now true failed (some false) = refl
now false failed (some true) = refl
now false failed (some false) = refl

afterwards :
    (opened failed fails : Bool) (choice : Option Bool)
    → or_else (toggled opened failed choice).choice fails
      ≡ (if is_some choice || differs (or_else choice failed) opened then opened else fails)
afterwards true true fails none = refl
afterwards true false fails none = refl
afterwards false true fails none = refl
afterwards false false fails none = refl
afterwards true failed fails (some true) = refl
afterwards true failed fails (some false) = refl
afterwards false failed fails (some true) = refl
afterwards false failed fails (some false) = refl

-- A row is open or closed as the user has left it. Whatever becomes of its call, it stays so where
-- the user has ever opened or closed it against what it showed; otherwise it opens on an error.
pub on_toggle-expanded :
    (opened : Bool) (tool later : ToolCall) (row : Row)
    → (expanded tool (on_toggle opened tool row) ≡ opened)
      × (expanded later (on_toggle opened tool row) ≡ (
          if is_some row.choice || differs (expanded tool row) opened
          then opened
          else is_error later.status))
unfolding expanded on_toggle
on_toggle-expanded opened tool later row = (
  now opened (is_error tool.status) row.choice,
  afterwards opened (is_error tool.status) (is_error later.status) row.choice,
)
