-- ===== src/Gateway/Handler/Spares.antt =====
-- handler.go and authroutes.go: the handlers that write no password.
use parallel_workspace_serve.Gateway.Identity.{Lookup}
use parallel_workspace_serve.Prelude.{
  ℕ, String, Bool, false, List, [], ◌∷◌, Option, none, some, any, str_eq, ◌≡◌, refl, arith,
}
use parallel_workspace_serve.Gateway.SessionIssuer.{Subject, Session, session, refused, issue}
use parallel_workspace_serve.Gateway.UserStore.{Verified, verified, denied, verify}
use parallel_workspace_serve.Gateway.Workspaces.{
  Answer, answer, WorkspaceSummary, CreateWorkspaceRequest, find,
}
use parallel_workspace_serve.Gateway.Exchange.{
  served, read_store, write_store, ask_endpoint, ask_turn, sign_certificate, issue_session,
  release_writable, look_up,
}
use parallel_workspace_serve.Gateway.Handler.{
  created, deleted, certificate_made, sign_for, issue_with, issue_certificate, session_issued,
  login_verified, login_given, login, principal_of, subject_named, create_workspace, after_lookups,
}
use parallel_workspace_serve.Gateway.Handler.Reads.{is_lasting_call}
use parallel_workspace_serve.Gateway.Workspaces.{Write, create}
use parallel_workspace_serve.Gateway.Exchange.{
  Call, write_password, verify_password, Served, Handler, Surroundings, LocalAuth, both_given,
}
use parallel_workspace_serve.Gateway.Handler.{require}

-- The password of this user is written.
abbrev pub is_change_of : String → Call → Bool
is_change_of username (write_password u) = str_eq u username
is_change_of username other = false

module _ (h : Handler) (s : Surroundings) where
  abbrev pub Spares : String → Served → Type 0
  Spares user served = any (is_change_of user) served.calls ≡ false

  pub created-Spares :
      (user : String) (a : Answer WorkspaceSummary × List Write) → Spares user (created h s a)
  created-Spares user (answer ws, writes) = refl
  created-Spares user (Answer.refused e, writes) = refl

  pub create_workspace-Spares :
      (user : String) (req : Option CreateWorkspaceRequest) → Spares user (create_workspace h s req)
  unfolding create_workspace
  create_workspace-Spares user none = refl
  create_workspace-Spares user (some req) =
      created-Spares user (create s.to_lower s.store h.default_template req)

  pub deleted-Spares :
      (user : String) (a : Answer (Unit {0}) × List Write) → Spares user (deleted h s a)
  deleted-Spares user (answer u, writes) = refl
  deleted-Spares user (Answer.refused e, writes) = refl

  pub certificate_made-Spares :
      (user : String) (o : Option String) (principal key : String)
      → Spares user (certificate_made h s o (read_store ∷ sign_certificate principal key ∷ []))
  certificate_made-Spares user none principal key = refl
  certificate_made-Spares user (some text) principal key = refl

  pub sign_for-Spares :
      (user : String) (authority : String → String → Option String) (key : String)
      (a : Answer WorkspaceSummary)
      → Spares user (sign_for h s authority key a)
  unfolding sign_for
  sign_for-Spares user authority key (answer ws) =
      certificate_made-Spares user (authority (principal_of h s ws) key) (principal_of h s ws) key
  sign_for-Spares user authority key (Answer.refused e) = refl

  pub issue_with-Spares :
      (user : String) (authority : Option (String → String → Option String)) (id key : String)
      → Spares user (issue_with h s authority id key)
  unfolding issue_with
  issue_with-Spares user none id key = refl
  issue_with-Spares user (some authority) id key =
      sign_for-Spares user authority key (find s.to_lower s.store id)

  pub issue_certificate-Spares :
      (user : String) (o : Option (String × String)) → Spares user (issue_certificate h s o)
  unfolding issue_certificate
  issue_certificate-Spares user none = refl
  issue_certificate-Spares user (some (id, key)) = issue_with-Spares user s.authority id key

  pub session_issued-Spares :
      (user name : String) (subject : Subject) (o : Session (String × ℕ))
      → Spares user (session_issued h s o (verify_password name ∷ issue_session subject ∷ []))
  session_issued-Spares user name subject (session (token, expiry)) = refl
  session_issued-Spares user name subject (refused e) = refl

  pub login_verified-Spares :
      (user : String) (l : LocalAuth) (name : String) (v : Verified)
      → Spares user (login_verified h s l name v)
  unfolding login_verified
  login_verified-Spares user l name (verified rec) =
      session_issued-Spares user name (subject_named h s name)
        (issue l.jwt l.signing_key (subject_named h s name) l.session_ttl s.now)
  login_verified-Spares user l name (denied e) = refl

  pub login_given-Spares :
      (user : String) (l : LocalAuth) (fields : Option (String × String))
      → Spares user (login_given h s l fields)
  unfolding login_given
  login_given-Spares user l none = refl
  login_given-Spares user l (some (name, password)) =
      login_verified-Spares user l name (verify l.crypt s.users name password)

  pub login-Spares :
      (user : String) (o : Option LocalAuth) (fields : Option (String × String))
      → Spares user (login h s o fields)
  unfolding login
  login-Spares user none fields = refl
  login-Spares user (some l) fields = login_given-Spares user l (both_given fields)

  pub require-Spares :
      (user : String) (o : Option Subject) (next : Subject → Served)
      → ((subject : Subject) → Spares user (next subject))
      → Spares user (require h s o next)
  unfolding require
  require-Spares user none next f = refl
  require-Spares user (some subject) next f = f subject

  -- What changes nothing for long writes no password.
  pub Lasting-Spares :
      (user : String) (calls : List Call)
      → any is_lasting_call calls ≡ false
      → any (is_change_of user) calls ≡ false
  Lasting-Spares user [] e = refl
  Lasting-Spares user (write_store writes ∷ calls) e = ground (arith, Lasting-Spares user calls)
  Lasting-Spares user (sign_certificate principal key ∷ calls) e = cc
  Lasting-Spares user (issue_session subject ∷ calls) e = cc
  Lasting-Spares user (write_password name ∷ calls) e = cc
  Lasting-Spares user (read_store ∷ calls) e = Lasting-Spares user calls e
  Lasting-Spares user (ask_endpoint ∷ calls) e = Lasting-Spares user calls e
  Lasting-Spares user (ask_turn ∷ calls) e = Lasting-Spares user calls e
  Lasting-Spares user (verify_password name ∷ calls) e = Lasting-Spares user calls e
  Lasting-Spares user (release_writable id ∷ calls) e = Lasting-Spares user calls e
  Lasting-Spares user (look_up name ∷ calls) e = Lasting-Spares user calls e

  -- To identify a caller changes no password.
  pub looked_up_change :
      (user : String) (names : List Lookup) (sv : Served)
      → any (is_change_of user) (after_lookups h s names sv).calls
        ≡ any (is_change_of user) sv.calls
  looked_up_change user [] sv = refl
  looked_up_change user (name ∷ names) sv = looked_up_change user names sv
