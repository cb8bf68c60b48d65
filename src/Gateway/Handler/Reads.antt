-- ===== src/Gateway/Handler/Reads.antt =====
-- handler.go and authroutes.go: a request that reads changes nothing.
use parallel_workspace_serve.Gateway.Handler.ReadRoutes.{is_writing}
use parallel_workspace_serve.Prelude.{
  ℕ, String, Bool, true, false, List, [], ◌∷◌, Option, none, some, any, ◌≡◌, refl, arith, ◌⊎◌, inl,
  inr,
}
use parallel_workspace_serve.Gateway.Identity.{HttpRequest, Lookup}
use parallel_workspace_serve.Gateway.Routing.{Route}
use parallel_workspace_serve.Gateway.SessionIssuer.{Subject}
use parallel_workspace_serve.Gateway.Workspaces.{
  Answer, answer, WorkspaceSummary, list_summaries, find, resolve_host, session_endpoint, Write,
  set_annotation, set_browser_connections,
}
use parallel_workspace_serve.Gateway.Exchange.{
  Call, write_store, sign_certificate, issue_session, write_password, Served, Handler, Surroundings,
  release_writable, read_store, ask_endpoint, ask_turn, verify_password, look_up,
}
use parallel_workspace_serve.Gateway.Handler.{
  require, serve_terminal, serve_session_socket, serve_version, serve_route, who_is, identified,
  after_lookups, close_session,
}
use parallel_workspace_serve.Gateway.Exchange.{served, subject_of, no_body}
use parallel_workspace_serve.Gateway.Handler.{
  show_terminal, connect_session, open_session, list_workspaces, turn_read, ask_status,
  session_status,
}

-- The annotation counts the browsers of a workspace.
abbrev pub is_lasting : Write → Bool
is_lasting (set_annotation name count) = false
is_lasting write = true

-- What workspaces there are, a password, or what is signed.
abbrev pub is_lasting_call : Call → Bool
is_lasting_call (write_store writes) = any is_lasting writes
is_lasting_call (sign_certificate principal key) = true
is_lasting_call (issue_session subject) = true
is_lasting_call (write_password username) = true
is_lasting_call other = false

-- The calls that change something.
abbrev pub is_write : Call → Bool
is_write (write_store writes) = true
is_write (release_writable id) = true
is_write (sign_certificate principal key) = true
is_write (issue_session subject) = true
is_write (write_password username) = true
is_write other = false

abbrev pub is_socket : Route → Bool
is_socket Route.session_socket = true
is_socket other = false

-- A call that changes nothing changes nothing for long.
pub quiet_lasting :
    (calls : List Call) → any is_write calls ≡ false → any is_lasting_call calls ≡ false
quiet_lasting [] e = refl
quiet_lasting (write_store writes ∷ calls) e = cc
quiet_lasting (release_writable id ∷ calls) e = cc
quiet_lasting (sign_certificate principal key ∷ calls) e = cc
quiet_lasting (issue_session subject ∷ calls) e = cc
quiet_lasting (write_password name ∷ calls) e = cc
quiet_lasting (read_store ∷ calls) e = quiet_lasting calls e
quiet_lasting (ask_endpoint ∷ calls) e = quiet_lasting calls e
quiet_lasting (ask_turn ∷ calls) e = quiet_lasting calls e
quiet_lasting (verify_password name ∷ calls) e = quiet_lasting calls e
quiet_lasting (look_up lookup ∷ calls) e = quiet_lasting calls e

module _ (h : Handler) (s : Surroundings) (r : HttpRequest) where
  abbrev pub Lasting : Served → Type 0
  Lasting served = any is_lasting_call served.calls ≡ false

  abbrev pub Reads : Served → Type 0
  Reads served = any is_write served.calls ≡ false

  require-Reads :
      (o : Option Subject) (next : Subject → Served)
      → ((subject : Subject) → Reads (next subject))
      → Reads (require h s o next)
  unfolding require
  require-Reads none next f = refl
  require-Reads (some subject) next f = f subject

  show_terminal-Reads : (a : Answer WorkspaceSummary) → Reads (show_terminal h s a)
  unfolding show_terminal
  show_terminal-Reads (answer ws) = refl
  show_terminal-Reads (Answer.refused e) = refl

  serve_terminal-Reads : (o : Option Subject) → Reads (serve_terminal h s o r)
  unfolding serve_terminal
  serve_terminal-Reads none = refl
  serve_terminal-Reads (some subject) = show_terminal-Reads (resolve_host s.to_lower s.store r.host)

  connect_session-Lasting :
      (ws : WorkspaceSummary) (a : Answer (String × ℕ)) → Lasting (connect_session h s ws a r)
  unfolding connect_session close_session set_browser_connections
  connect_session-Lasting ws (answer endpoint) = ground arith
  connect_session-Lasting ws (Answer.refused e) = refl

  open_session-Lasting : (a : Answer WorkspaceSummary) → Lasting (open_session h s a r)
  unfolding open_session
  open_session-Lasting (answer ws) =
      connect_session-Lasting ws (session_endpoint s.to_lower s.store h.supervisor_port ws)
  open_session-Lasting (Answer.refused e) = refl

  serve_session_socket-Lasting : (o : Option Subject) → Lasting (serve_session_socket h s o r)
  unfolding serve_session_socket
  serve_session_socket-Lasting none = refl
  serve_session_socket-Lasting (some subject) =
      open_session-Lasting (resolve_host s.to_lower s.store r.host)

  list_workspaces-Reads : (a : Answer (List WorkspaceSummary)) → Reads (list_workspaces h s a)
  unfolding list_workspaces
  list_workspaces-Reads (answer all) = refl
  list_workspaces-Reads (Answer.refused e) = refl

  turn_read-Reads : (ws : WorkspaceSummary) (o : Option String) → Reads (turn_read h s ws o)
  turn_read-Reads ws none = refl
  turn_read-Reads ws (some turn) = refl

  ask_status-Reads : (ws : WorkspaceSummary) (a : Answer (String × ℕ)) → Reads (ask_status h s ws a)
  unfolding ask_status
  ask_status-Reads ws (answer endpoint) = turn_read-Reads ws (s.turn endpoint)
  ask_status-Reads ws (Answer.refused e) = refl

  session_status-Reads : (a : Answer WorkspaceSummary) → Reads (session_status h s a)
  unfolding session_status
  session_status-Reads (answer ws) =
      ask_status-Reads ws (session_endpoint s.to_lower s.store h.supervisor_port ws)
  session_status-Reads (Answer.refused e) = refl

  looked_up-Reads :
      (names : List Lookup) (sv : Served) → Reads sv → Reads (after_lookups h s names sv)
  looked_up-Reads [] sv e = e
  looked_up-Reads (name ∷ names) sv e = looked_up-Reads names sv e

  identified-Reads :
      (next : Option Subject → Served)
      → ((o : Option Subject) → Reads (next o))
      → Reads (identified h s r next)
  unfolding identified
  identified-Reads next f =
      looked_up-Reads (who_is h s r).lookups (next (who_is h s r).subject)
        (f (who_is h s r).subject)

  required-Reads :
      (next : Subject → Served)
      → ((subject : Subject) → Reads (next subject))
      → Reads (identified h s r λ o. require h s o next)
  required-Reads next f = identified-Reads (λ o. require h s o next) (λ o. require-Reads o next f)

  looked_up-Lasting :
      (names : List Lookup) (sv : Served) → Lasting sv → Lasting (after_lookups h s names sv)
  looked_up-Lasting [] sv e = e
  looked_up-Lasting (name ∷ names) sv e = looked_up-Lasting names sv e

  pub socket-Lasting : Lasting (serve_route h s Route.session_socket r)
  unfolding serve_route identified
  socket-Lasting =
      looked_up-Lasting (who_is h s r).lookups (serve_session_socket h s (who_is h s r).subject r)
        (serve_session_socket-Lasting (who_is h s r).subject)

  pub serve_route-Reads :
      (x : Route) → is_writing x ≡ false → is_socket x ≡ false → Reads (serve_route h s x r)
  unfolding serve_route serve_version
  serve_route-Reads Route.healthz e n = refl
  serve_route-Reads Route.version e n = refl
  serve_route-Reads Route.terminal e n =
      identified-Reads (λ o. serve_terminal h s o r) serve_terminal-Reads
  serve_route-Reads Route.session_socket e n = cc
  serve_route-Reads Route.handover e n = cc
  serve_route-Reads Route.login e n = cc
  serve_route-Reads Route.logout e n = cc
  serve_route-Reads Route.me e n =
      required-Reads (λ subject. served 200 (subject_of subject) []) (λ subject. refl)
  serve_route-Reads Route.change_password e n = cc
  serve_route-Reads Route.list_workspaces e n =
      required-Reads (λ subject. list_workspaces h s (list_summaries s.to_lower s.store))
        (λ subject. list_workspaces-Reads (list_summaries s.to_lower s.store))
  serve_route-Reads Route.create_workspace e n = cc
  serve_route-Reads Route.issue_certificate e n = cc
  serve_route-Reads (Route.delete_workspace id) e n = cc
  serve_route-Reads (Route.session_status id) e n =
      required-Reads (λ subject. session_status h s (find s.to_lower s.store id))
        (λ subject. session_status-Reads (find s.to_lower s.store id))
  serve_route-Reads Route.no_route e n = refl
  serve_route-Reads Route.no_api_route e n =
      required-Reads (λ subject. served (h.unrouted r) no_body []) (λ subject. refl)

  pub serve_route-Lasting :
      (x : Route)
      → is_writing x ≡ false
      → Lasting (serve_route h s x r) × ((x ≡ Route.session_socket) ⊎ Reads (serve_route h s x r))
  serve_route-Lasting Route.session_socket e = (socket-Lasting, inl refl)
  serve_route-Lasting other e =
      let quiet = serve_route-Reads other e refl in
      (quiet_lasting (serve_route h s other r).calls quiet, inr quiet)
