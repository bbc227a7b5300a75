-- ===== src/Auth/Session/Tests.antt =====
-- The session functions on a small storage.
use webbuilder.Base.{◌≡◌, refl, none, some, []}
use webbuilder.Auth.Session.{
  Browser, save_session, store_tokens, set_refresh_token, set_auth_token, set_auth_session_id,
  remove_user_data, clear_session,
}
use webbuilder.Samples.{login, takes_all, takes_none}

abbrev blank : Browser
blank = record {
  auth_token = none;
  refresh_token = none;
  auth_session_id = none;
  user_data = some "{}";
  cache = record { files = []; cached_bytes = 0 };
  pathname = "/signin";
}

saved_token : (save_session takes_all "s1" login blank).1.auth_token ≡ some "t2"
unfolding save_session store_tokens set_refresh_token set_auth_token set_auth_session_id
    remove_user_data
saved_token = refl

refused_token : (save_session takes_none "s1" login blank).1.user_data ≡ none
unfolding save_session store_tokens set_refresh_token set_auth_token set_auth_session_id
    remove_user_data clear_session
refused_token = refl
