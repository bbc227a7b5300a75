-- ===== src/Http/Services/Credentials.antt =====
-- Which services are asked with the token of the session.
use text.Mathlib.TextPositions.{starts_with-append}
use webbuilder.Base.{
  String, Bool, true, false, ◌≡◌, refl, ap, ◌∙◌, none, some, List, [], ◌∷◌, any, truthy, concat,
  starts_with, ◌==◌, eq_iff, arith, Bool-cases, inl, inr,
}
use webbuilder.Base.Exec.{Result, ok}
use webbuilder.Auth.Session.{Browser, get_session_id}
use webbuilder.Http.Interceptors.{Request, public_auth_paths, is_public, authorize, on_request}
use webbuilder.Http.Services.{
  google, github, Service, options, get_current_user, update_profile, request_verification,
  confirm_verification, exchange_oauth, link_provider, login, register, list_files, read_file,
  download_file, download_project, preview_status, open_preview, delete_project, create_chat,
  list_projects, start_run, cancel_run, call_of, request_of, auth_call, file_call, preview_call,
  project_call, run_call, of_auth, of_files, of_preview, of_projects, of_runs,
}

-- the services that are for visitors
abbrev pub is_open : Service → Bool
is_open (of_auth options) = true
is_open (of_auth (request_verification email)) = true
is_open (of_auth (confirm_verification token)) = true
is_open (of_auth (exchange_oauth token)) = true
is_open (of_auth (login email password)) = true
is_open (of_auth (register name email password)) = true
is_open _ = false

begins_otherwise :
    (p prefix rest : String) → starts_with p prefix ≡ false → (p == concat prefix rest) ≡ false
begins_otherwise p prefix rest s = elim (Bool-cases (p == concat prefix rest)) [
  | inl e ↦ absurd (
      ground (
        arith,
        s,
        ap (λ t. starts_with t prefix) ((eq_iff p (concat prefix rest)).0 e)
            ∙ starts_with-append prefix rest,
      ))
  | inr e ↦ e
]

any-apart :
    (prefix rest : String) (paths : List String)
    → any (λ p. starts_with p prefix) paths ≡ false
    → any (λ p. p == concat prefix rest) paths ≡ false
any-apart prefix rest [] a = refl
any-apart prefix rest (p ∷ paths) a = ground (
  arith,
  a,
  begins_otherwise p prefix rest (ground (arith, a)),
  any-apart prefix rest paths (ground (arith, a)),
)

in_projects : (rest : String) → any (λ p. p == concat "/projects/" rest) public_auth_paths ≡ false
in_projects rest = any-apart "/projects/" rest public_auth_paths refl

is_public-call_of :
    (encode : String → String) (s : Service) → is_public (request_of (call_of encode s)) ≡ is_open s
unfolding auth_call file_call preview_call project_call run_call
is_public-call_of encode (of_auth options) = refl
is_public-call_of encode (of_auth get_current_user) = refl
is_public-call_of encode (of_auth (update_profile name bio)) = refl
is_public-call_of encode (of_auth (request_verification email)) = refl
is_public-call_of encode (of_auth (confirm_verification token)) = refl
is_public-call_of encode (of_auth (exchange_oauth token)) = refl
is_public-call_of encode (of_auth (link_provider google)) = refl
is_public-call_of encode (of_auth (link_provider github)) = refl
is_public-call_of encode (of_auth (login email password)) = refl
is_public-call_of encode (of_auth (register name email password)) = refl
is_public-call_of encode (of_files (list_files id)) = in_projects (concat id "/files")
is_public-call_of encode (of_files (read_file id path query)) =
    in_projects (concat id (concat "/files/" (concat (encode path) (concat "?" query))))
is_public-call_of encode (of_files (download_file id path query)) =
    in_projects (concat id (concat "/files/" (concat (encode path) (concat "?raw=true&" query))))
is_public-call_of encode (of_files (download_project id query)) =
    in_projects (concat id (concat "/download?" query))
is_public-call_of encode (of_preview (preview_status id timeout)) =
    in_projects (concat id "/preview")
is_public-call_of encode (of_preview (open_preview id timeout)) = in_projects (concat id "/preview")
is_public-call_of encode (of_projects (delete_project id)) = in_projects (encode id)
is_public-call_of encode (of_projects (create_chat prompt)) = refl
is_public-call_of encode (of_projects list_projects) = refl
is_public-call_of encode (of_runs (start_run id prompt)) =
    any-apart "/chats/" (concat id "/runs") public_auth_paths refl
is_public-call_of encode (of_runs (cancel_run id)) =
    any-apart "/runs/" (concat id "/cancel") public_auth_paths refl

-- The request is sent: a visitor's without credentials, any other with the token of the session,
-- and its session noted.
pub data IsSent (b : Browser) (token : String) : Service → Result Request → Type 0 where
  open_sent :
      {s : Service} {r : Request}
      → is_open s ≡ true
      → r.authorization ≡ none
      → IsSent b token s (ok r)
  signed_sent :
      {s : Service} {r : Request}
      → is_open s ≡ false
      → r.authorization ≡ some (concat "Bearer " token)
      → r.session_id ≡ get_session_id b
      → IsSent b token s (ok r)

-- While a token that is not empty is stored, every service's request passes the interceptor; it carries the token
-- and the session, unless the service is one of the six for visitors.
pub on_request-call_of :
    (encode : String → String) (s : Service) (b : Browser) (token : String)
    → b.auth_token ≡ some token
    → truthy (some token) ≡ true
    → IsSent b token s (on_request b (request_of (call_of encode s)))
unfolding on_request authorize
on_request-call_of encode s b token e t =
    let known = is_public-call_of encode s in
    elim (Bool-cases (is_open s)) [
      | inl o ↦ rw (known, o) (open_sent o refl)
      | inr o ↦ rw (known, o, e, t) (signed_sent o refl refl)
    ]
