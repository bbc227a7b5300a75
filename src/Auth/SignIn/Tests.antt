-- ===== src/Auth/SignIn/Tests.antt =====
-- A login, and a storage that takes nothing.
use webbuilder.Base.{◌≡◌, refl, true, false, none, some}
use webbuilder.Base.Exec.{ok}
use webbuilder.Auth.Session.{store_tokens, save_session}
use webbuilder.Auth.SignIn.{SignIn, check_session, on_session_user}
use webbuilder.Samples.{signed_in, signed_out, account, takes_none, stringify}

abbrev form : SignIn
form = record {
  is_loading = false;
  error = "";
  checking_session = true;
  disposed = false;
  route = none;
  browser = signed_out;
}

shown : (check_session form).0.checking_session ≡ false
unfolding check_session
shown = refl

redirected :
    (on_session_user takes_none stringify
      (some "s")
      (ok account)
      (record form { browser = signed_in })).route
    ≡ some "/chat"
unfolding on_session_user webbuilder.Auth.Session.get_session_id
redirected = refl
