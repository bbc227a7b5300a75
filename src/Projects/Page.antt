-- ===== src/Projects/Page.antt =====
-- `useProjectsPage` of frontend/hooks/projects/useProjectsPage.ts, cut at its await.
pub mod Leaving
mod Tests
use webbuilder.Base.{String, Bool, true, false, Option, none, some, if◌then◌else◌, truthy}
use webbuilder.Base.Exec.{Result, ok, err}
use webbuilder.Auth.Session.{Browser, clear_session}
use webbuilder.Auth.Account.{UserData}

pub record Page : Type 0 where
  pub ready : Bool
  pub user : Option UserData
  pub disposed : Bool
  pub browser : Browser
  pub route : Option String

-- the snapshot of the store
unfoldable pub has_session : Page → Bool
has_session p = truthy p.browser.auth_token

-- the effect, up to its request, which a page without a token does not send
unfoldable pub set_up : Page → Page
set_up p = if truthy p.browser.auth_token then p else record p { route = some "/signin" }

unfoldable pub on_user : Result UserData → Page → Page
on_user (ok user) p = if p.disposed then p else record p { user = some user; ready = true }
on_user (err message) p = if p.disposed then p else record p { ready = true }

unfoldable pub sign_out : Page → Page
sign_out p = record p { browser = clear_session p.browser; route = some "/" }
