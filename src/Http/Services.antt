-- ===== src/Http/Services.antt =====
-- The requests of frontend/services, one for each function, with the addresses of
-- frontend/config/env.ts. `encode` is `encodeURIComponent`.
pub mod Credentials
mod Tests
use webbuilder.Base.{
  ℕ, String, Bool, true, false, Option, none, some, if◌then◌else◌, or_else, truthy, concat, ◌==◌,
}
use webbuilder.Json.{Json, str, obj, Fields, end, field}
use webbuilder.Http.Interceptors.{Request}

pub data Verb : Type 0 where
  get post patch delete : Verb

pub record Call : Type 0 where
  pub verb : Verb
  pub path : String
  pub body : Option Json
  pub timeout : Option ℕ
  pub is_blob : Bool

pub data Provider : Type 0 where
  google github : Provider

abbrev pub provider_name : Provider → String
provider_name google = "google"
provider_name github = "github"

-- the functions of authService
pub data AuthService : Type 0 where
  options get_current_user : AuthService
  update_profile : (name bio : String) → AuthService
  request_verification : (email : String) → AuthService
  confirm_verification exchange_oauth : (token : String) → AuthService
  link_provider : Provider → AuthService
  login : (email password : String) → AuthService
  register : (name email password : String) → AuthService

pub data FileService : Type 0 where
  list_files : (project_id : String) → FileService
  read_file download_file : (project_id path revision_query : String) → FileService
  download_project : (project_id revision_query : String) → FileService

pub data PreviewService : Type 0 where
  preview_status open_preview : (project_id : String) → (timeout : ℕ) → PreviewService

pub data ProjectService : Type 0 where
  delete_project : (id : String) → ProjectService
  create_chat : (prompt : String) → ProjectService
  list_projects : ProjectService

pub data RunService : Type 0 where
  start_run : (chat_id prompt : String) → RunService
  cancel_run : (run_id : String) → RunService

pub data Service : Type 0 where
  of_auth : AuthService → Service
  of_files : FileService → Service
  of_preview : PreviewService → Service
  of_projects : ProjectService → Service
  of_runs : RunService → Service

abbrev ask : Verb → String → Call
ask verb path = record { verb = verb; path = path; body = none; timeout = none; is_blob = false }

abbrev ask_with : Verb → String → Fields → Call
ask_with verb path fields = record (ask verb path) { body = some (obj fields) }

abbrev text_field : String → String → Fields → Fields
text_field key value rest = field key (str value) rest

unfoldable pub auth_call : AuthService → Call
auth_call options = ask get "/auth/options"
auth_call get_current_user = ask get "/auth/me"
auth_call (update_profile name bio) =
    ask_with patch "/auth/me" (text_field "name" name (text_field "bio" bio end))
auth_call (request_verification email) =
    ask_with post "/auth/verification/request" (text_field "email" email end)
auth_call (confirm_verification token) =
    ask_with post "/auth/verification/confirm" (text_field "token" token end)
auth_call (exchange_oauth token) =
    ask_with post "/auth/oauth/exchange" (text_field "token" token end)
auth_call (link_provider provider) =
    ask post (concat "/auth/oauth/" (concat (provider_name provider) "/link"))
auth_call (login email password) =
    ask_with post "/auth/login" (text_field "email" email (text_field "password" password end))
auth_call (register name email password) =
    ask_with post "/auth/register"
      (text_field "name" name (text_field "email" email (text_field "password" password end)))

-- `/projects/${project_id}` and what follows it
abbrev pub in_project : (project_id rest : String) → String
in_project project_id rest = concat "/projects/" (concat project_id rest)

unfoldable pub file_call : (encode : String → String) → FileService → Call
file_call encode (list_files project_id) = ask get (in_project project_id "/files")
file_call encode (read_file project_id path revision_query) =
    ask get
      (in_project project_id (concat "/files/" (concat (encode path) (concat "?" revision_query))))
file_call encode (download_file project_id path revision_query) =
    record (ask get (
      in_project project_id
        (concat "/files/" (concat (encode path) (concat "?raw=true&" revision_query))))) {
          is_blob = true;
        }
file_call encode (download_project project_id revision_query) =
    record (ask get (in_project project_id (concat "/download?" revision_query))) { is_blob = true }

unfoldable pub preview_call : PreviewService → Call
preview_call (preview_status project_id timeout) =
    record (ask get (in_project project_id "/preview")) { timeout = some timeout }
preview_call (open_preview project_id timeout) =
    record (ask post (in_project project_id "/preview")) { timeout = some timeout }

unfoldable pub project_call : (encode : String → String) → ProjectService → Call
project_call encode (delete_project id) = ask delete (concat "/projects/" (encode id))
project_call encode (create_chat prompt) = ask_with post "/chat" (text_field "prompt" prompt end)
project_call encode list_projects = ask get "projects"

unfoldable pub run_call : RunService → Call
run_call (start_run chat_id prompt) =
    ask_with post (concat "/chats/" (concat chat_id "/runs")) (text_field "prompt" prompt end)
run_call (cancel_run run_id) = ask post (concat "/runs/" (concat run_id "/cancel"))

abbrev pub call_of : (encode : String → String) → Service → Call
call_of encode (of_auth service) = auth_call service
call_of encode (of_files service) = file_call encode service
call_of encode (of_preview service) = preview_call service
call_of encode (of_projects service) = project_call encode service
call_of encode (of_runs service) = run_call service

-- what Axios hands to the request interceptor
abbrev pub request_of : Call → Request
request_of call = record {
  url = some call.path;
  session_id = none;
  access_token = none;
  retried_after_refresh = false;
  authorization = none;
}

-- `window.location`, where there is a window
pub record Location : Type 0 where
  pub protocol : String
  pub host : String

unfoldable pub get_ws_url : (configured : Option String) → Option Location → String
get_ws_url configured location =
    if truthy configured then or_else configured "" else elim location [
      | none ↦ "ws://localhost:8000"
      | some l ↦ concat (if l.protocol == "https:" then "wss:" else "ws:") (concat "//" l.host)
    ]

abbrev pub api_base_url : (configured : Option String) → String
api_base_url configured =
    if truthy configured then or_else configured "" else "http://localhost:8000"
