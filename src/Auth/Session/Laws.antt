-- ===== src/Auth/Session/Laws.antt =====
-- What the storage holds after the session functions.
use webbuilder.Base.{String, ◌≡◌, ◌≢◌, refl, Bool, true, none, some, [], arith, eq_iff}
use webbuilder.Base.Exec.{ok, err}
use webbuilder.Files.ContentCache.{clear_file_content_cache}
use webbuilder.Auth.Session.{
  Browser, LoginResponse, get_session_id, clear_session, set_refresh_token, set_auth_token,
  set_auth_session_id, remove_user_data, store_tokens, save_session,
}

-- No credential, no user data and no cached file is left.
pub record IsSignedOut (b : Browser) : Type 0 where
  pub no_token : b.auth_token ≡ none
  pub no_refresh : b.refresh_token ≡ none
  pub no_session : b.auth_session_id ≡ none
  pub no_user : b.user_data ≡ none
  pub no_files : b.cache.files ≡ []

pub clear_session-IsSignedOut : (b : Browser) → IsSignedOut (clear_session b)
unfolding clear_session clear_file_content_cache
clear_session-IsSignedOut b = record {
  no_token = refl;
  no_refresh = refl;
  no_session = refl;
  no_user = refl;
  no_files = refl;
}

pub get_session_id-IsSignedOut : (b : Browser) → IsSignedOut b → get_session_id b ≡ none
unfolding get_session_id
get_session_id-IsSignedOut b s = ground arith

-- The tokens of a login, under a session id, with nothing of an earlier session.
pub record IsSignedIn (uuid : String) (session : LoginResponse) (b : Browser) : Type 0 where
  pub token : b.auth_token ≡ some session.access_token
  pub refresh : b.refresh_token ≡ some session.refresh_token
  pub session_id : get_session_id b ≡ some uuid
  pub no_user : b.user_data ≡ none
  pub no_files : b.cache.files ≡ []

module _ (accepts : String → Bool) where
  -- Saving a session stores its two tokens, under the new id and without the old user data and
  -- files; if it throws, for an incomplete session or a refused write, nobody is signed in.
  pub save_session_lem :
      (uuid : String) (session : LoginResponse) (b : Browser)
      → uuid ≢ ""
      → let (r, b') = save_session accepts uuid session b in
        (r ≡ ok tt → IsSignedIn uuid session b') × ((e : String) → r ≡ err e → IsSignedOut b')
  unfolding save_session store_tokens set_refresh_token set_auth_token set_auth_session_id
      remove_user_data get_session_id clear_session clear_file_content_cache
  save_session_lem uuid session b h =
      (λ p. ground (arith, eq_iff uuid "", eq_iff session.access_token ""), λ e p. ground arith)

  -- If the tokens are there and the storage takes every value, saving does not throw.
  pub save_session-ok :
      (uuid : String) (session : LoginResponse) (b : Browser)
      → session.access_token ≢ ""
      → session.refresh_token ≢ ""
      → ((v : String) → accepts v ≡ true)
      → (save_session accepts uuid session b).0 ≡ ok tt
  unfolding save_session store_tokens set_refresh_token set_auth_token set_auth_session_id
      remove_user_data
  save_session-ok uuid session b h k all = ground (
    arith,
    eq_iff session.access_token "",
    eq_iff session.refresh_token "",
    all session.access_token,
    all session.refresh_token,
    all uuid,
  )
