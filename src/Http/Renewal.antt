-- ===== src/Http/Renewal.antt =====
-- `endSession` and `renewSession` of frontend/lib/http/client.ts. The asynchronous function is two
-- steps: what runs up to the request, and what runs on its answer, on the storage as it is then.
pub mod Laws
use webbuilder.Base.{
  ℕ, ◌+◌, String, Bool, true, false, not, ◌&&◌, ◌||◌, Option, none, some, if◌then◌else◌, truthy,
  or_else, same_text, eqb, ◌==◌,
}
use webbuilder.Base.Exec.{Result, ok, err}
use webbuilder.Auth.Session.{Browser, LoginResponse, get_session_id, clear_session, store_tokens}

-- A promise has a number for its identity.
pub record Pending : Type 0 where
  pub session_id : String
  pub promise : ℕ

pub record Client : Type 0 where
  pub browser : Browser
  pub pending_refresh : Option Pending
  pub next_promise : ℕ

abbrev pub is_session : String → Browser → Bool
is_session session_id b = same_text (get_session_id b) (some session_id)

unfoldable pub end_session : String → String → Browser → Browser
end_session session_id destination b =
    if is_session session_id b
    then (let b = clear_session b in
        if b.pathname == destination then b else record b { pathname = destination })
    else b

-- what `renewSession` does before it waits
pub data Begin : Type 0 where
  refused : String → Begin
  joined : ℕ → Begin
  posted : String → ℕ → Begin

abbrev pub is_pending_for : String → Option Pending → Bool
is_pending_for session_id none = false
is_pending_for session_id (some p) = p.session_id == session_id

abbrev pub promise_of : Option Pending → ℕ
promise_of none = 0
promise_of (some p) = p.promise

unfoldable pub begin_renewal : String → Client → Client × Begin
begin_renewal session_id c =
    if not (is_session session_id c.browser)
    then (c, refused "Your session changed. Try again.")
    else if is_pending_for session_id c.pending_refresh
    then (c, joined (promise_of c.pending_refresh))
    else if truthy c.browser.refresh_token
    then (
      record c {
        pending_refresh = some (record { session_id = session_id; promise = c.next_promise });
        next_promise = c.next_promise + 1;
      },
      posted (or_else c.browser.refresh_token "") c.next_promise,
    )
    else (
      record c { browser = end_session session_id "/signin" c.browser },
      refused "Please sign in again to continue.",
    )

-- what Axios gives for the refresh request: the response's data, or a failure with the response's
-- status, if there was a response
pub data Answer : Type 0 where
  renewed : LoginResponse → Answer
  failed : Option ℕ → Answer

-- `[401, 403].includes(error.response?.status ?? 0)`
abbrev pub is_denied : Option ℕ → Bool
is_denied none = false
is_denied (some status) = eqb status 401 || eqb status 403

-- how the `try` block ends: with an Axios error, an error of the program's own, or no error
pub data Ended : Type 0 where
  returned : Ended
  axios_error : Option ℕ → Ended
  thrown : Ended

abbrev ended : Result (Unit {0}) → Ended
ended (ok _) = returned
ended (err _) = thrown

module _ (accepts : String → Bool) where
  unfoldable pub try_renewal : String → String → Answer → Browser → Ended × Browser
  try_renewal session_id refresh_token (failed status) b = (axios_error status, b)
  try_renewal session_id refresh_token (renewed session) b =
      if not (is_session session_id b)
      then (thrown, b)
      else if not (same_text b.refresh_token (some refresh_token))
      then (returned, b)
      else let (r, b) = store_tokens accepts session b in (ended r, b)

  -- the `catch` block
  unfoldable pub after_renewal : String → String → Ended × Browser → Result (Unit {0}) × Browser
  after_renewal session_id refresh_token (returned, b) = (ok tt, b)
  after_renewal session_id refresh_token (thrown, b) =
      if is_session session_id b && not (same_text b.refresh_token (some refresh_token))
      then (ok tt, b)
      else (err "Could not renew your session. Please try again.", b)
  after_renewal session_id refresh_token (axios_error status, b) =
      if is_session session_id b && not (same_text b.refresh_token (some refresh_token))
      then (ok tt, b)
      else if is_denied status
      then (
        err "Your session has expired. Please sign in again.",
        end_session session_id "/signin" b,
      )
      else (err "Could not renew your session. Please try again.", b)

  -- the body of the promise
  unfoldable pub renew : String → String → Answer → Browser → Result (Unit {0}) × Browser
  renew session_id refresh_token answer b =
      after_renewal session_id refresh_token (try_renewal session_id refresh_token answer b)

  -- `finally`: the promise is no longer pending, unless another one has taken its place
  unfoldable pub finish_renewal : String → String → ℕ → Answer → Client → Result (Unit {0}) × Client
  finish_renewal session_id refresh_token promise answer c =
      let (r, b) = renew session_id refresh_token answer c.browser in
      (
        r,
        record c {
          browser = b;
          pending_refresh = elim c.pending_refresh [
            | none ↦ none
            | some p ↦ if eqb p.promise promise then none else some p
          ];
        },
      )
