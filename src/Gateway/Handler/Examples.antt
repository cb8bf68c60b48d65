-- ===== src/Gateway/Handler/Examples.antt =====
-- The handler at concrete requests.
use parallel_workspace_serve.Prelude.{
  true, [], ◌∷◌, none, some, refl, ◌≡◌, any, lookup, str_eq, trim_space, split_text,
}
use parallel_workspace_serve.Controller.Api.{found, not_found}
use parallel_workspace_serve.Gateway.Identity.{
  get, post, HttpRequest, identify, idp_authenticator, local_authenticator, user_record,
}
use parallel_workspace_serve.Gateway.Routing.{auth_route}
use parallel_workspace_serve.Gateway.SessionIssuer.{Jwt, verify_session, looked_up}
use parallel_workspace_serve.Gateway.UserStore
use parallel_workspace_serve.Gateway.UserStore.{Bcrypt, present, UserRecord, done, verify}
use parallel_workspace_serve.Gateway.Workspaces
use parallel_workspace_serve.Gateway.Exchange.{LocalAuth, Handler, Surroundings, look_up}
use parallel_workspace_serve.Gateway.Handler.{serve}
use parallel_workspace_serve.Gateway.Handler.Spares.{is_change_of}
use parallel_workspace_serve.Gateway.Handler.Passwords.{Entitled, serve-Entitled}

abbrev list_request : HttpRequest
list_request = record {
  method = get;
  segments = "api" ∷ "workspaces" ∷ [];
  host = "ws.example";
  authorization = "";
  ws_protocol = "";
  session_id = "";
  body = "";
}

abbrev empty_server : Workspaces.Server
empty_server = record {
  get = λ name. not_found "no such workspace";
  list = found [];
  create = λ d. Workspaces.bad_request;
  delete = λ name. Workspaces.removed;
  pods = λ name. found [];
  patch = λ name count. Workspaces.removed;
}

-- Another one: it refuses to list.
abbrev failing_server : Workspaces.Server
failing_server = record empty_server { list = not_found "down" }

abbrev crypt : Bcrypt
crypt = record { generate = λ p. some p; matches = λ hash p. str_eq hash p }

abbrev no_jwt : Jwt
no_jwt = record { numeric_date = λ t. t; sign = λ key claims. none; parse = λ key now token. none }

abbrev alice_local : LocalAuth
alice_local = record {
  crypt = crypt;
  jwt = no_jwt;
  signing_key = "k";
  session_ttl = 60;
  configured = true;
}

abbrev handler : Handler
handler = record {
  identity = some (idp_authenticator ∷ []);
  local = some alice_local;
  version = "1";
  min_client_version = "";
  max_client_version = "";
  supervisor_port = 0;
  default_template = "";
  unrouted = λ r. 404;
}

-- Every token is alice's, of an older session.
abbrev alices_jwt : Jwt
alices_jwt = record no_jwt {
  parse = λ key now token. some (record {
    subject = "alice";
    name = "Alice";
    source = "local";
    issued_at_nano = 1;
    expires_at = 9;
  });
}

-- A gateway on which the session of the request has been revoked.
abbrev closed_handler : Handler
closed_handler = record handler { identity = some (local_authenticator alices_jwt "k" true ∷ []) }

abbrev surroundings : Workspaces.Server → Surroundings
surroundings store = record {
  store = store;
  to_lower = λ s. s;
  equal_fold = λ s t. str_eq s t;
  verify_foreign = λ token. some "alice";
  sessions = [];
  sessions_at_end = [];
  turn = λ endpoint. none;
  authority = none;
  users = present (("alice", record { password_hash = "old"; updated_at = 3 }) ∷ []);
  user_server = record { stored = λ n. present []; answer = λ n. done };
  now = 5;
  new_session_id = "fresh";
  decode_create = λ body. none;
  decode_login = λ body. none;
  decode_change = λ body. some ("old", "new");
  decode_certificate = λ body. none;
}

abbrev revoked_request : HttpRequest
revoked_request = record list_request { authorization = "Bearer t" }

-- To tell so, alice is looked up.
alice_looked_up :
    (serve closed_handler (surroundings empty_server) revoked_request).calls
    ≡ look_up (user_record "alice") ∷ []
unfolding serve verify_session trim_space lookup looked_up
alice_looked_up = refl

abbrev change_request : HttpRequest
change_request = record list_request { method = post; segments = "auth" ∷ "password" ∷ [] }

alice_changed :
    any (is_change_of "alice") (serve handler (surroundings empty_server) change_request).calls
    ≡ true
unfolding serve auth_route identify verify lookup UserStore.set_password UserStore.mutate
    UserStore.mutate_from UserStore.read UserStore.set_change split_text trim_space
alice_changed = refl

serve-Entitled_example : Entitled handler (surroundings empty_server) change_request "alice"
serve-Entitled_example =
    serve-Entitled handler (surroundings empty_server) change_request "alice" alice_changed
