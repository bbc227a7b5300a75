-- ===== src/Auth/Verification/Tests.antt =====
-- A link that is confirmed, with a storage that takes everything.
use webbuilder.Base.{◌≡◌, refl, false, none, some, arith, eq_iff}
use webbuilder.Base.Exec.{ok}
use webbuilder.Auth.Session.{store_tokens, save_session}
use webbuilder.Auth.Verification.{Verification, read_link, confirm, on_confirmed, on_user}
use webbuilder.Auth.Verification.Outcome.{IsEnded, outcome, on_confirmed_ends}
use webbuilder.Samples.{signed_out, login, account, takes_all, stringify}

abbrev opened : Verification
opened = record {
  token = "";
  email = "";
  ready = false;
  busy = false;
  message = "";
  error = "";
  hash = "token=k";
  route = none;
  browser = signed_out;
}

token_read : (read_link (λ hash. some "k") opened).token ≡ "k"
unfolding read_link
token_read = refl

profile :
    (outcome takes_all stringify
      (ok account)
      (on_confirmed takes_all stringify "s1" (ok login) (confirm opened))).route
    ≡ some "/profile"
unfolding outcome on_confirmed webbuilder.Auth.Verification.after_save save_session store_tokens
    webbuilder.Auth.Session.set_refresh_token webbuilder.Auth.Session.set_auth_token
    webbuilder.Auth.Session.set_auth_session_id webbuilder.Auth.Session.remove_user_data on_user
    webbuilder.Auth.Verification.after_user webbuilder.Auth.Account.set_user_data
profile = refl

on_confirmed_ends_example : IsEnded stringify (ok login) (ok account) (
    outcome takes_all stringify
      (ok account)
      (on_confirmed takes_all stringify "s1" (ok login) opened))
on_confirmed_ends_example =
    on_confirmed_ends takes_all stringify "s1" (ok login) (ok account) opened
      (ground (arith, eq_iff "s1" ""))
