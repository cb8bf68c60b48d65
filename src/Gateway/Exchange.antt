-- ===== src/Gateway/Exchange.antt =====
-- gateway/internal/gateway/handler.go and authroutes.go: the gateway's settings, its surroundings
-- during one request, and what is answered.
use parallel_workspace_serve.Prelude.{
  ℕ, String, Bool, List, Option, none, some, ◌||◌, if◌then◌else◌, is_blank,
}
use parallel_workspace_serve.Gateway.Identity.{HttpRequest, Authenticator, Lookup}
use parallel_workspace_serve.Gateway.BrowserSessions.{Sessions}
use parallel_workspace_serve.Gateway.SessionIssuer.{Subject, Jwt}
use parallel_workspace_serve.Gateway.UserStore.{
  Bcrypt, Stored, Verified, verified, denied, verify, Error, Mutated, wrote, kept, error,
  set_password,
}
use parallel_workspace_serve.Gateway.UserStore
use parallel_workspace_serve.Gateway.Workspaces
use parallel_workspace_serve.Gateway.Workspaces.{
  StoreError, Answer, answer, WorkspaceSummary, CreateWorkspaceRequest, Write, list_summaries, find,
  resolve_host, create, delete, session_endpoint,
}

-- What a handler asks of the rest of the gateway and of the workspaces.
pub data Call : Type 0 where
  read_store : Call
  write_store : List Write → Call
  ask_endpoint ask_turn : Call
  sign_certificate : String → String → Call
  verify_password : String → Call
  issue_session : Subject → Call
  write_password : String → Call
  -- DELETE /clients/{id} at the supervisor.
  release_writable : String → Call
  look_up : Lookup → Call

pub data Body : Type 0 where
  no_body sign_in_page empty_object unauthorized : Body
  error_text : String → Body
  store_error : StoreError → Body
  version_of : String → String → String → Body
  terminal_page : WorkspaceSummary → Body
  summaries : List WorkspaceSummary → Body
  summary : WorkspaceSummary → Body
  turn_of : WorkspaceSummary → String → Body
  certificate_of : String → Body
  session_of : String → ℕ → Body
  subject_of : Subject → Body

pub data Result : Type 0 where
  respond : ℕ → Body → Result
  -- The two that go on: the handover, and the socket over an endpoint with a session id.
  to_handover : Subject → Result
  to_socket : WorkspaceSummary → String × ℕ → String → Result

pub record Served : Type 0 where
  pub result : Result
  pub calls : List Call

pub record LocalAuth : Type 0 where
  pub crypt : Bcrypt
  pub jwt : Jwt
  pub signing_key : String
  pub session_ttl : ℕ
  -- Whether the user store is configured.
  pub configured : Bool

pub record Handler : Type 0 where
  pub identity : Option (List Authenticator)
  pub local : Option LocalAuth
  pub version : String
  pub min_client_version : String
  pub max_client_version : String
  pub supervisor_port : ℕ
  pub default_template : String
  -- What the multiplexer answers where no pattern fits: not found, a method that is not allowed, or
  -- a redirect to a clean path.
  pub unrouted : HttpRequest → ℕ

-- The collaborators as they answer during one request, and the decoders of a body.
pub record Surroundings : Type 0 where
  pub store : Workspaces.Server
  pub to_lower : String → String
  -- strings.EqualFold.
  pub equal_fold : String → String → Bool
  -- The browser sessions as they are when a socket opens, and when its bridge has ended.
  pub sessions : Sessions
  pub sessions_at_end : Sessions
  -- GET /turn of an endpoint: the body where the status is 200.
  pub turn : String × ℕ → Option String
  -- `Issue` of the certificate authority, `none` where there is no authority or no signing key.
  pub authority : Option (String → String → Option String)
  pub users : Stored
  -- `Verify` of the verifier of foreign tokens.
  pub verify_foreign : String → Option String
  pub user_server : UserStore.Server
  pub now : ℕ
  pub new_session_id : String
  pub decode_create : String → Option CreateWorkspaceRequest
  -- The two fields of a login, of a change of password and of a request for a certificate.
  pub decode_login : String → Option (String × String)
  pub decode_change : String → Option (String × String)
  pub decode_certificate : String → Option (String × String)

abbrev pub served : ℕ → Body → List Call → Served
served status body calls = record { result = respond status body; calls = calls }

-- `writeStoreError`.
unfoldable pub store_status : StoreError → ℕ
store_status StoreError.err_not_found = 404
store_status StoreError.err_already_exists = 409
store_status StoreError.err_invalid = 400
store_status (StoreError.err_other e) = 502

abbrev pub refuse : StoreError → List Call → Served
refuse e calls = served (store_status e) (store_error e) calls

-- Both fields have to be given.
abbrev pub both_given : Option (String × String) → Option (String × String)
both_given none = none
both_given (some (a, b)) = if is_blank a || is_blank b then none else some (a, b)
