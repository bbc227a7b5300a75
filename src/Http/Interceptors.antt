-- ===== src/Http/Interceptors.antt =====
-- The interceptors of frontend/lib/http/client.ts. The response interceptor's error handler is one
-- step up to its `await`; `Next` says how it goes on.
pub mod Laws
use webbuilder.Base.{
  ℕ, String, Bool, true, false, not, ◌&&◌, ◌||◌, Option, none, some, List, [], ◌∷◌, any,
  if◌then◌else◌, truthy, is_empty, is_blank, trim, join, or_else, same_text, eqb, ◌==◌, concat,
  starts_with,
}
use webbuilder.Base.Exec.{Result, ok, err}
use webbuilder.Json.{Json, str, arr, obj, Items, nil, cons, Fields, get_field}
use webbuilder.Auth.Session.{Browser, get_session_id}
use webbuilder.Http.Renewal.{end_session}

-- `SessionRequest`; `undefined` and `null` are both `none`
pub record Request : Type 0 where
  pub url : Option String
  pub session_id : Option String
  pub access_token : Option String
  pub retried_after_refresh : Bool
  pub authorization : Option String

abbrev pub public_auth_paths : List String
public_auth_paths =
    "/auth/login" ∷ "/auth/register" ∷ "/auth/options" ∷ "/auth/refresh" ∷ "/auth/oauth/exchange"
    ∷ "/auth/verification/confirm" ∷ "/auth/verification/request" ∷ []

abbrev pub is_public : Request → Bool
is_public r = any (λ p. p == or_else r.url "") public_auth_paths

-- the headers are there, as Axios makes them
unfoldable pub authorize : Option String → Request → Request
authorize token r =
    if truthy token
    then record r { authorization = some (concat "Bearer " (or_else token "")) }
    else r

unfoldable pub on_request : Browser → Request → Result Request
on_request b r =
    if is_public r
    then ok r
    else if r.retried_after_refresh && not (same_text r.session_id (get_session_id b))
    then err "Your session changed. Try again."
    else ok (
        authorize b.auth_token
          (record r { session_id = get_session_id b; access_token = b.auth_token }))

-- `request?.sessionId && request.sessionId !== getSessionId()`
abbrev pub is_stale : Browser → Option String → Bool
is_stale b session_id = truthy session_id && not (same_text session_id (get_session_id b))

unfoldable pub on_response {ℓ} : {A : Type ℓ} → Browser → Request → A → Result A
on_response b r response =
    if is_stale b r.session_id then err "Your session changed. Try again." else ok response

-- What Axios rejects with. `detail` is `error.response?.data?.detail`.
pub record Failure : Type 0 where
  pub request : Option Request
  pub status : Option ℕ
  pub detail : Option Json
  pub message : String

pub data Next : Type 0 where
  reject : String → Next
  resend : Request → Next
  -- `await renewSession(sessionId)`, then send the request again
  renew_then_resend : String → Request → Next

abbrev pub is_status : ℕ → Option ℕ → Bool
is_status code none = false
is_status code (some s) = eqb s code

abbrev pub session_of : Option Request → Option String
session_of none = none
session_of (some r) = r.session_id

abbrev pub is_verify_notice : Option Json → Bool
is_verify_notice (some (str s)) = starts_with s "Verify your email"
is_verify_notice _ = false

-- `item.msg.trim()` of the items that have a text there, the empty ones left out
unfoldable pub message_of : Json → String
message_of (obj fields) = elim (get_field "msg" fields) [
  | none ↦ ""
  | some v ↦ elim v [ str s ↦ trim s | _ ↦ "" ]
]
message_of _ = ""

unfoldable pub messages_of : Items → List String
messages_of nil = []
messages_of (cons v rest) =
    let more = messages_of rest in if is_empty (message_of v) then more else message_of v ∷ more

abbrev pub joined_or : String → List String → String
joined_or d [] = d
joined_or d (m ∷ ms) = join " " (m ∷ ms)

abbrev pub text_of_detail : String → Option Json → String
text_of_detail d (some (str s)) = if is_blank s then d else s
text_of_detail d (some (arr items)) = joined_or d (messages_of items)
text_of_detail d _ = d

abbrev pub url_of : Option Request → Option String
url_of none = none
url_of (some r) = r.url

unfoldable pub error_message : Failure → String
error_message f =
    let message =
      if is_empty f.message then "Something went wrong. Please try again." else f.message in
    if same_text (url_of f.request) (some "/auth/verification/confirm") && is_status 422 f.status
    then "This verification link is invalid or expired. Request a new one."
    else text_of_detail message f.detail

-- `endSession(request.sessionId, "/verify-email")`, if the server asks for it
unfoldable pub end_unverified : Browser → Failure → Browser
end_unverified b f =
    if truthy (session_of f.request) && is_status 403 f.status && is_verify_notice f.detail
    then end_session (or_else (session_of f.request) "") "/verify-email" b
    else b

-- the 401 branch, for a request that was sent with a session and a token
unfoldable pub on_unauthorized : Browser → Request → Failure → Browser × Next
on_unauthorized b r f =
    if r.retried_after_refresh
    then (if same_text b.auth_token r.access_token
        then (end_session (or_else r.session_id "") "/signin" b, reject (error_message f))
        else (b, reject (error_message f)))
    else let r' = record r { retried_after_refresh = true } in
      if same_text b.auth_token r.access_token
      then (b, renew_then_resend (or_else r.session_id "") r')
      else (b, resend r')

abbrev pub after_401 : Browser → Option Request → Failure → Browser × Next
after_401 b none f = (b, reject (error_message f))
after_401 b (some r) f =
    if is_status 401 f.status && truthy r.session_id && truthy r.access_token
    then on_unauthorized b r f
    else (b, reject (error_message f))

unfoldable pub on_error : Browser → Failure → Browser × Next
on_error b f =
    if is_stale b (session_of f.request)
    then (b, reject "Your session changed. Try again.")
    else after_401 (end_unverified b f) f.request f
