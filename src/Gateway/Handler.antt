-- ===== src/Gateway/Handler.antt =====
-- gateway/internal/gateway/handler.go and authroutes.go: the routes, and each handler up to its
-- response. POST /handover goes on in Gateway.Handover, and what GET /ws carries in Gateway.Bridge;
-- what the opening and the closing of its socket report is here. What a
-- handler asks of its collaborators is listed in the order of the calls.
pub mod Guarded
pub mod ReadRoutes
pub mod Reads
pub mod Spares
pub mod Passwords
mod Examples
use parallel_workspace_serve.Gateway.BrowserSessions.{attach, detach, writable}
use parallel_workspace_serve.Prelude.{
  ℕ, String, Bool, true, false, List, [], ◌∷◌, Option, none, some, ◌||◌, if◌then◌else◌, is_blank,
  ◌++◌, map,
}
use parallel_workspace_serve.Gateway.Identity.{
  Method, HttpRequest, Authenticator, identify, Identified, Lookup,
}
use parallel_workspace_serve.Gateway.SessionIssuer.{Subject, Jwt, Session, session, refused, issue}
use parallel_workspace_serve.Gateway.UserStore.{
  Bcrypt, Stored, Verified, verified, denied, verify, Error, Mutated, wrote, kept, error,
  set_password,
}
use parallel_workspace_serve.Gateway.UserStore
use parallel_workspace_serve.Gateway.Workspaces
use parallel_workspace_serve.Gateway.Workspaces.{
  StoreError, Answer, answer, WorkspaceSummary, CreateWorkspaceRequest, Write, list_summaries, find,
  resolve_host, create, delete, session_endpoint, set_browser_connections,
}
use parallel_workspace_serve.Gateway.Routing.{Route, route}
use parallel_workspace_serve.Gateway.Exchange.{
  Call, Handler, LocalAuth, Served, Surroundings, ask_endpoint, ask_turn, both_given,
  certificate_of, empty_object, error_text, issue_session, no_body, read_store, refuse, served,
  session_of, sign_certificate, sign_in_page, store_error, subject_of, summaries, summary,
  terminal_page, to_handover, to_socket, turn_of, unauthorized, verify_password, version_of,
  write_password, write_store, release_writable, look_up,
}

module _ (h : Handler) (s : Surroundings) where
  unfoldable pub serve_version : Served
  serve_version = served 200 (version_of h.version h.min_client_version h.max_client_version) []

  -- The answer to an identified caller; `host` names the workspace.
  unfoldable pub show_terminal : Answer WorkspaceSummary → Served
  show_terminal (answer ws) = served 200 (terminal_page ws) (read_store ∷ [])
  show_terminal (Answer.refused e) = refuse e (read_store ∷ [])

  unfoldable pub serve_terminal : Option Subject → HttpRequest → Served
  unfolding show_terminal
  serve_terminal none r = served 401 sign_in_page []
  serve_terminal (some subject) r = show_terminal (resolve_host s.to_lower s.store r.host)

  abbrev pub session_id_of : HttpRequest → String
  session_id_of r = if is_blank r.session_id then s.new_session_id else r.session_id

  abbrev pub report_connections : String → ℕ → Call
  report_connections name count =
      write_store (set_browser_connections s.to_lower s.store name count).1

  -- What is done when the bridge has ended: a session that may write gives that up at the
  -- supervisor, and is detached.
  unfoldable pub close_session : String → String → List Call
  unfolding writable detach set_browser_connections
  close_session name id =
      let detached = report_connections name (detach name id s.sessions_at_end).1 ∷ [] in
      if writable name id s.sessions_at_end then release_writable id ∷ detached else detached

  unfoldable pub connect_session : WorkspaceSummary → Answer (String × ℕ) → HttpRequest → Served
  unfolding attach close_session set_browser_connections
  connect_session ws (answer endpoint) r = record {
    result = to_socket ws endpoint (session_id_of r);
    calls =
        read_store
        ∷ ask_endpoint
        ∷ report_connections ws.name (attach ws.name (session_id_of r) s.sessions).1
        ∷ close_session ws.name (session_id_of r);
  }
  connect_session ws (Answer.refused e) r =
      served 502 (store_error e) (read_store ∷ ask_endpoint ∷ [])

  unfoldable pub open_session : Answer WorkspaceSummary → HttpRequest → Served
  unfolding connect_session
  open_session (Answer.refused e) r = refuse e (read_store ∷ [])
  open_session (answer ws) r =
      connect_session ws (session_endpoint s.to_lower s.store h.supervisor_port ws) r

  unfoldable pub serve_session_socket : Option Subject → HttpRequest → Served
  unfolding open_session
  serve_session_socket none r = served 401 unauthorized []
  serve_session_socket (some subject) r = open_session (resolve_host s.to_lower s.store r.host) r

  unfoldable pub list_workspaces : Answer (List WorkspaceSummary) → Served
  list_workspaces (answer all) = served 200 (summaries all) (read_store ∷ [])
  list_workspaces (Answer.refused e) = served 502 (store_error e) (read_store ∷ [])

  abbrev pub created : Answer WorkspaceSummary × List Write → Served
  created (answer ws, writes) = served 201 (summary ws) (write_store writes ∷ [])
  created (Answer.refused e, writes) = refuse e (write_store writes ∷ [])

  unfoldable pub create_workspace : Option CreateWorkspaceRequest → Served
  create_workspace none = served 400 (error_text "body") []
  create_workspace (some req) = created (create s.to_lower s.store h.default_template req)

  abbrev pub deleted : Answer (Unit {0}) × List Write → Served
  deleted (answer u, writes) = served 204 no_body (read_store ∷ write_store writes ∷ [])
  deleted (Answer.refused e, writes) = refuse e (read_store ∷ write_store writes ∷ [])

  unfoldable pub delete_workspace : String → Served
  delete_workspace id = deleted (delete s.to_lower s.store id)

  abbrev pub turn_read : WorkspaceSummary → Option String → Served
  turn_read ws none = served 502 (error_text "turn") (read_store ∷ ask_endpoint ∷ ask_turn ∷ [])
  turn_read ws (some turn) =
      served 200 (turn_of ws turn) (read_store ∷ ask_endpoint ∷ ask_turn ∷ [])

  unfoldable pub ask_status : WorkspaceSummary → Answer (String × ℕ) → Served
  ask_status ws (Answer.refused e) = served 502 (store_error e) (read_store ∷ ask_endpoint ∷ [])
  ask_status ws (answer endpoint) = turn_read ws (s.turn endpoint)

  unfoldable pub session_status : Answer WorkspaceSummary → Served
  unfolding ask_status
  session_status (Answer.refused e) = refuse e (read_store ∷ [])
  session_status (answer ws) =
      ask_status ws (session_endpoint s.to_lower s.store h.supervisor_port ws)

  abbrev pub principal_of : WorkspaceSummary → String
  principal_of ws = if is_blank ws.workspace_id then ws.name else ws.workspace_id

  abbrev pub certificate_made : Option String → List Call → Served
  certificate_made none calls = served 400 (error_text "certificate") calls
  certificate_made (some text) calls = served 200 (certificate_of text) calls

  unfoldable pub sign_for :
      (String → String → Option String) → String → Answer WorkspaceSummary → Served
  sign_for authority key (Answer.refused e) = refuse e (read_store ∷ [])
  sign_for authority key (answer ws) =
      certificate_made (authority (principal_of ws) key)
        (read_store ∷ sign_certificate (principal_of ws) key ∷ [])

  unfoldable pub issue_with : Option (String → String → Option String) → String → String → Served
  unfolding sign_for
  issue_with none id key = served 503 (error_text "no ssh certificate authority configured") []
  issue_with (some authority) id key = sign_for authority key (find s.to_lower s.store id)

  unfoldable pub issue_certificate : Option (String × String) → Served
  unfolding issue_with
  issue_certificate none = served 400 (error_text "body") []
  issue_certificate (some (id, key)) = issue_with s.authority id key

  abbrev pub session_issued : Session (String × ℕ) → List Call → Served
  session_issued (session (token, expiry)) calls = served 200 (session_of token expiry) calls
  session_issued (refused e) calls = served 500 (error_text "session") calls

  abbrev pub subject_named : String → Subject
  subject_named username = record { id = username; name = username; source = "local" }

  unfoldable pub login_verified : LocalAuth → String → Verified → Served
  login_verified l username (denied e) =
      served 401 (error_text "invalid credentials") (verify_password username ∷ [])
  login_verified l username (verified rec) =
      session_issued (issue l.jwt l.signing_key (subject_named username) l.session_ttl s.now)
        (verify_password username ∷ issue_session (subject_named username) ∷ [])

  unfoldable pub login_given : LocalAuth → Option (String × String) → Served
  unfolding login_verified
  login_given l none = served 400 (error_text "username and password are required") []
  login_given l (some (username, password)) =
      login_verified l username (verify l.crypt s.users username password)

  unfoldable pub login : Option LocalAuth → Option (String × String) → Served
  unfolding login_given
  login none fields = served 503 (error_text "local authentication is disabled") []
  login (some l) fields = login_given l (both_given fields)

  abbrev pub password_written : Mutated → List Call → Served
  password_written (wrote n users) calls = served 200 empty_object calls
  password_written (kept n) calls = served 200 empty_object calls
  password_written (error Error.user_not_found) calls =
      served 401 (error_text "invalid credentials") calls
  password_written (error e) calls = served 500 (error_text "password") calls

  unfoldable pub change_verified : LocalAuth → String → String → Verified → Served
  change_verified l username password (denied e) =
      served 401 (error_text "invalid credentials") (verify_password username ∷ [])
  change_verified l username password (verified rec) =
      password_written (set_password l.crypt s.now l.configured s.user_server username password)
        (verify_password username ∷ write_password username ∷ [])

  unfoldable pub change_given : LocalAuth → Subject → Option (String × String) → Served
  unfolding change_verified
  change_given l subject none =
      served 400 (error_text "currentPassword and newPassword are required") []
  change_given l subject (some (current, new)) =
      change_verified l subject.id new (verify l.crypt s.users subject.id current)

  unfoldable pub change_password : Option LocalAuth → Subject → Option (String × String) → Served
  unfolding change_given
  change_password none subject fields =
      served 503 (error_text "local authentication is disabled") []
  change_password (some l) subject fields = change_given l subject (both_given fields)

  abbrev pub after_lookups : List Lookup → Served → Served
  after_lookups names sv = record sv { calls = map look_up names ++ sv.calls }

  -- Who is behind a request.
  unfoldable pub who_is : HttpRequest → Identified
  unfolding identify
  who_is r = identify s.equal_fold s.verify_foreign s.users s.now h.identity r

  -- The caller is identified first.
  unfoldable pub identified : HttpRequest → (Option Subject → Served) → Served
  unfolding who_is
  identified r next = after_lookups (who_is r).lookups (next (who_is r).subject)

  -- `Require`: the handler of an identified caller.
  unfoldable pub require : Option Subject → (Subject → Served) → Served
  require none next = served 401 unauthorized []
  require (some subject) next = next subject

  unfoldable pub serve_route : Route → HttpRequest → Served
  unfolding identified serve_version serve_terminal serve_session_socket require login
      change_password list_workspaces create_workspace delete_workspace session_status
      issue_certificate
  serve_route Route.healthz r = served 200 no_body []
  serve_route Route.version r = serve_version
  serve_route Route.terminal r = identified r λ o. serve_terminal o r
  serve_route Route.session_socket r = identified r λ o. serve_session_socket o r
  serve_route Route.handover r =
      identified r λ o. require o λ subject. record { result = to_handover subject; calls = [] }
  serve_route Route.login r = login h.local (s.decode_login r.body)
  serve_route Route.logout r = identified r λ o. require o λ subject. served 200 empty_object []
  serve_route Route.me r = identified r λ o. require o λ subject. served 200 (subject_of subject) []
  serve_route Route.change_password r =
      identified r
        λ o. require o λ subject. change_password h.local subject (s.decode_change r.body)
  serve_route Route.list_workspaces r =
      identified r λ o. require o λ subject. list_workspaces (list_summaries s.to_lower s.store)
  serve_route Route.create_workspace r =
      identified r λ o. require o λ subject. create_workspace (s.decode_create r.body)
  serve_route (Route.delete_workspace id) r =
      identified r λ o. require o λ subject. delete_workspace id
  serve_route (Route.session_status id) r =
      identified r λ o. require o λ subject. session_status (find s.to_lower s.store id)
  serve_route Route.issue_certificate r =
      identified r λ o. require o λ subject. issue_certificate (s.decode_certificate r.body)
  serve_route Route.no_api_route r =
      identified r λ o. require o λ subject. served (h.unrouted r) no_body []
  serve_route Route.no_route r = served (h.unrouted r) no_body []

  unfoldable pub serve : HttpRequest → Served
  unfolding route serve_route
  serve r = serve_route (route r.method r.segments) r
