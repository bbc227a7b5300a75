-- ===== src/Auth/Session.antt =====
-- frontend/lib/auth/session.ts. `localStorage` has one field for each key that the program uses;
-- `null` is `none`. A write can throw (a full or refused storage): `accepts` says which values the
-- storage takes. The file cache is kept in the same record, as `clearSession` clears it.
pub mod Laws
mod Tests
use webbuilder.Base.{
  ℕ, String, Bool, true, false, not, ◌&&◌, ◌||◌, Option, none, some, if◌then◌else◌, truthy,
  is_empty,
}
use webbuilder.Base.Exec.{Exec, Result, ok, err, pure, throw, ◌>>=◌, ◌>>◌, catch}
use webbuilder.Files.ContentCache.{Cache, clear_file_content_cache}

pub record Browser : Type 0 where
  pub auth_token : Option String
  pub refresh_token : Option String
  pub auth_session_id : Option String
  pub user_data : Option String
  pub cache : Cache
  -- `window.location.pathname`
  pub pathname : String

-- frontend/types/auth.type.ts
pub record LoginResponse : Type 0 where
  pub access_token : String
  pub refresh_token : String
  pub token_type : String

unfoldable pub get_session_id : Browser → Option String
get_session_id b =
    if truthy b.auth_token
    then if truthy b.auth_session_id then b.auth_session_id else b.auth_token
    else none

unfoldable pub clear_session : Browser → Browser
clear_session b = record {
  auth_token = none;
  refresh_token = none;
  auth_session_id = none;
  user_data = none;
  cache = clear_file_content_cache b.cache;
  pathname = b.pathname;
}

abbrev Write : Type 0
Write = Exec Browser (Unit {0})

module _ (accepts : String → Bool) where
  -- `localStorage.setItem`, one function for each key
  unfoldable pub set_refresh_token : String → Exec Browser (Unit {0})
  set_refresh_token v b =
      if accepts v
      then (ok tt, record b { refresh_token = some v })
      else (err "The quota has been exceeded.", b)

  unfoldable pub set_auth_token : String → Exec Browser (Unit {0})
  set_auth_token v b =
      if accepts v
      then (ok tt, record b { auth_token = some v })
      else (err "The quota has been exceeded.", b)

  unfoldable pub set_auth_session_id : String → Exec Browser (Unit {0})
  set_auth_session_id v b =
      if accepts v
      then (ok tt, record b { auth_session_id = some v })
      else (err "The quota has been exceeded.", b)

  unfoldable pub remove_user_data : Exec Browser (Unit {0})
  remove_user_data b = (ok tt, record b { user_data = none })

  unfoldable pub store_tokens : LoginResponse → Exec Browser (Unit {0})
  store_tokens session =
      if is_empty session.access_token || is_empty session.refresh_token
      then throw "The server returned an incomplete login session."
      else (do set_refresh_token session.refresh_token; set_auth_token session.access_token)

  -- `uuid` is what `crypto.randomUUID()` gives
  unfoldable pub save_session : String → LoginResponse → Exec Browser (Unit {0})
  save_session uuid session b =
      catch (do store_tokens session; set_auth_session_id uuid; remove_user_data)
        (λ e b. (err e, clear_session b)) (record b { cache = clear_file_content_cache b.cache })
