-- ===== src/Projects/Page/Leaving.antt =====
-- Signing out of the projects.
use webbuilder.Base.{◌≡◌, refl, false, some}
use webbuilder.Auth.Session.{clear_session}
use webbuilder.Auth.Session.Laws.{IsSignedOut, clear_session-IsSignedOut}
use webbuilder.Projects.Page.{Page, has_session, set_up, sign_out}

-- After signing out nothing of the session is stored, the page sees no session, and coming back
-- to it leads to the sign-in.
pub sign_out-IsSignedOut :
    (p : Page)
    → IsSignedOut (sign_out p).browser
      × (has_session (sign_out p) ≡ false)
      × ((set_up (sign_out p)).route ≡ some "/signin")
unfolding sign_out has_session set_up clear_session
sign_out-IsSignedOut p = (clear_session-IsSignedOut p.browser, refl, refl)
