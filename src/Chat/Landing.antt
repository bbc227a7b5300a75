-- ===== src/Chat/Landing.antt =====
-- The form of frontend/components/landing/HeroPrompt.tsx, which leaves a draft for the page of a new
-- project. `keeps` says which values sessionStorage takes; where it takes one, removing another
-- does not throw. The limit of the text area is the browser's.
pub mod Opening
mod Tests
use webbuilder.Base.{
  String, Bool, true, false, not, ◌&&◌, ◌||◌, Option, none, some, if◌then◌else◌, is_empty, trim,
}

pub record Hero : Type 0 where
  pub prompt : String
  pub error : String
  pub opening : Bool
  -- PROJECT_DRAFT_KEY and "webbuilder-starter" of sessionStorage
  pub draft : Option String
  pub starter : Option String
  pub route : Option String

-- `onChange`; the text area is read-only while the workspace is opened
unfoldable pub change : String → Hero → Hero
change prompt h = if h.opening then h else record h { prompt = prompt; error = "" }

unfoldable pub submit : (keeps : String → Bool) → Hero → Hero
submit keeps h =
    if is_empty (trim h.prompt) || h.opening
    then h
    else if keeps (trim h.prompt)
    then record h {
      draft = some (trim h.prompt);
      starter = none;
      error = "";
      opening = true;
      route = some "/chat";
    }
    else record h {
      error =
          "Your browser could not save this draft. Allow site storage and try again. Your text is still here.";
    }
