-- ===== src/Gateway/Examples.antt =====
-- gateway/internal/gateway: the theorems at concrete inputs, and small runs.
use parallel_workspace_serve.Prelude.{
  ℕ, String, Bool, true, false, [], ◌∷◌, Option, none, some, refl, ◌≡◌, ◌≢◌, arith, lookup, insert,
  ◌==◌, if◌then◌else◌, str_eq, eq_iff, ◌&&◌,
}
use parallel_workspace_serve.Controller.Api.{found, not_found}
use parallel_workspace_serve.Controller.Naming.{replace_invalid, collapse_dashes, base_name}
use parallel_workspace_serve.Controller.Naming.Labels.{IsLabel}
use parallel_workspace_serve.Gateway.Workspaces as Workspaces
use parallel_workspace_serve.Gateway.Workspaces.{WorkspaceSummary}
use parallel_workspace_serve.Gateway.Workspaces.Declared.{
  IsAddressed, create-IsLabel, delete-IsAddressed,
}
use parallel_workspace_serve.Prelude.{is_blank, trim_left, trim_right}
use parallel_workspace_serve.Gateway.BrowserSessions.{Sessions, attach, promote, writable}
use parallel_workspace_serve.Gateway.BrowserSessions.SingleWriter.{
  SingleWriter, Steps, here, next, attaches, promotes, Steps-SingleWriter,
}
use parallel_workspace_serve.Gateway.Handover.{
  Answers, workspace, handover, take_over, declare_writable_fails,
}
use parallel_workspace_serve.Gateway.Handover.Grants.{Granted, handover-Granted, handover_refused}
use parallel_workspace_serve.Gateway.UserStore.{
  UserRecord, Users, Stored, present, absent, done, conflict, Server, Bcrypt, wrote, read, mutate,
  mutate_from, ensure_user, ensure_change, set_password, set_change, verify, verified,
}
use parallel_workspace_serve.Gateway.UserStore.Writes.{
  Accepted, ensure_user-Accepted, verify-set_password,
}
use parallel_workspace_serve.Gateway.SessionIssuer.{Jwt, SessionClaims, session, verify_session}
use parallel_workspace_serve.Gateway.SessionIssuer.Revocation.{SignsAndParses, set_password-revokes}

-- Two browsers on one workspace, of which the first takes the session over.
abbrev nobody : Sessions
nobody = []

abbrev two_browsers : Sessions
two_browsers = (attach "ws" "b" (attach "ws" "a" nobody).0).0

abbrev taken : Sessions
taken = (promote "ws" "a" two_browsers).0

taken-Steps : Steps nobody taken
taken-Steps =
    next
      (next (next here (attaches "ws" "a" nobody)) (attaches "ws" "b" (attach "ws" "a" nobody).0))
      (promotes "ws" "a" two_browsers)

nobody-SingleWriter : SingleWriter nobody
unfolding writable lookup
nobody-SingleWriter w i j h k = cc

second_refused : (promote "ws" "b" taken).1 ≡ false
unfolding promote attach insert lookup
second_refused = refl

Steps-SingleWriter_example : SingleWriter taken
Steps-SingleWriter_example = Steps-SingleWriter taken-Steps nobody-SingleWriter

abbrev answers : Option ℕ → Answers
answers declared = record {
  resolve_host = workspace "ws";
  session_id = some "b";
  session_endpoint = true;
  clients = some (200, some []);
  declared = declared;
}

-- The session belongs to another browser.
refused_while_taken : (handover (answers (some 500)) (λ c. c) taken).0 ≢ 200
unfolding handover take_over declare_writable_fails promote attach insert lookup
refused_while_taken h = ground arith

still_theirs : writable "ws" "a" (handover (answers (some 500)) (λ c. c) taken).1 ≡ true
unfolding handover take_over declare_writable_fails promote attach insert lookup writable
still_theirs = refl

handover_refused_example : writable "ws" "a" taken ≡ true
handover_refused_example =
    handover_refused (answers (some 500)) "ws" "a" taken refused_while_taken still_theirs

handover-Granted_example :
    Granted
      (answers (some 204))
      two_browsers
      (handover (answers (some 204)) (λ c. c) two_browsers).1
unfolding handover take_over declare_writable_fails promote attach insert lookup
handover-Granted_example = handover-Granted (answers (some 204)) two_browsers refl

abbrev plain : Bcrypt
plain = record { generate = λ p. some p; matches = λ hash p. str_eq hash p }

plain_accepts : (p hash : String) → plain.generate p ≡ some hash → plain.matches hash p ≡ true
plain_accepts p hash h = ground (arith, eq_iff hash p)

abbrev alice : Users
alice = ("alice", record { password_hash = "old"; updated_at = 1 }) ∷ []

-- The first write meets a conflict, the second is accepted.
abbrev busy : Stored → Server
busy stored = record { stored = λ n. stored; answer = λ n. if n == 0 then conflict else done }

abbrev alice_after : Users
alice_after = ("alice", record { password_hash = "new"; updated_at = 9 }) ∷ []

set_alice : set_password plain 9 true (busy (present alice)) "alice" "new" ≡ wrote 1 alice_after
unfolding set_password set_change mutate mutate_from read lookup insert
set_alice = refl

ensure_bob :
    ensure_user plain 9 true (busy absent) "bob" "pw"
    ≡ wrote 1 (("bob", record { password_hash = "pw"; updated_at = 9 }) ∷ [])
unfolding ensure_user ensure_change mutate mutate_from read lookup insert
ensure_bob = refl

ensure_user-Accepted_example :
    (a : Accepted plain 9
      (busy absent)
      "bob"
      "pw"
      1
      (("bob", record { password_hash = "pw"; updated_at = 9 }) ∷ []))
    × (lookup "bob" a.base ≡ none)
ensure_user-Accepted_example =
    ensure_user-Accepted plain 9 true (busy absent) "bob" "pw" 1
      (("bob", record { password_hash = "pw"; updated_at = 9 }) ∷ []) ensure_bob

verify-set_password_example :
    (rec : UserRecord) × (verify plain (present alice_after) "alice" "new" ≡ verified rec)
    × (rec.updated_at ≡ 9)
verify-set_password_example =
    verify-set_password plain 9 true (busy (present alice)) "alice" "new" 1 alice_after
      plain_accepts set_alice

-- A toy token that carries nothing but its issue: one claim is known.
abbrev known_claims : SessionClaims
known_claims = record {
  subject = "alice";
  name = "Alice";
  source = "local";
  issued_at_nano = 5;
  expires_at = 65;
}

abbrev is_known : SessionClaims → Bool
is_known c =
    str_eq c.subject "alice"
    && str_eq c.name "Alice"
    && str_eq c.source "local"
    && c.issued_at_nano == 5
    && c.expires_at == 65

abbrev jwt : Jwt
jwt = record {
  numeric_date = λ t. t;
  sign = λ key claims. if is_known claims then some "t" else none;
  parse = λ key now token. if str_eq token "t" then some known_claims else none;
}

set_password-revokes_example :
    verify_session jwt "k" (some (present alice_after)) 10 "t"
    ≢ session (record { id = "alice"; name = "Alice"; source = "local" })
set_password-revokes_example =
    set_password-revokes jwt "k" "t" plain 9 10 true (busy (present alice)) "alice" "new" 1
      alice_after known_claims set_alice refl refl (omega arith)
      (record { id = "alice"; name = "Alice"; source = "local" })

jwt_contract : SignsAndParses jwt
jwt_contract key token claims now h fresh = ground (
  arith,
  eq_iff claims.subject "alice",
  eq_iff claims.name "Alice",
  eq_iff claims.source "local",
  eq_iff token "t",
)

-- A server without workspaces, and a request.
abbrev summary : String → WorkspaceSummary
summary name = record {
  name = name;
  workspace_id = "feature-x";
  repository = "git";
  branch = "feature/x";
  template_ref = "default";
  phase = "Ready";
  session_id = "";
  urls = record { preview = ""; session = ""; report = "" };
}

abbrev store : Workspaces.Server
store = record {
  get = λ name. not_found "no such workspace";
  list = found (summary "a" ∷ []);
  create = λ d. Workspaces.made (summary d.name);
  delete = λ name. Workspaces.removed;
  pods = λ name. found [];
  patch = λ name count. Workspaces.removed;
}

abbrev creation : Workspaces.CreateWorkspaceRequest
creation = record {
  repository = "git";
  branch = "feature/x";
  base_branch = "";
  template_ref = "";
  git_credential_secret_ref = "";
}

abbrev declared_feature : Workspaces.Declaration
declared_feature = record {
  name = "feature-x";
  repository = "git";
  branch = "feature/x";
  template_ref = "default";
  base_branch = none;
  git_credential_secret_ref = none;
}

create_feature :
    Workspaces.create (λ s. s) store "default" creation
    ≡ (Workspaces.answer (summary "feature-x"), Workspaces.create_workspace declared_feature ∷ [])
unfolding Workspaces.create Workspaces.sanitize_dns_label replace_invalid collapse_dashes trim_left
    trim_right
create_feature = refl

create-IsLabel_example :
    IsLabel "feature-x"
    × ("feature-x" ≡ base_name (λ s. s) (λ s. s) "feature/x")
    × (is_blank "git" ≡ false)
    × (is_blank "feature/x" ≡ false)
create-IsLabel_example =
    create-IsLabel (λ s. s) store (λ s. s) "default" creation declared_feature
      (Workspaces.answer (summary "feature-x")) [] create_feature

delete_feature :
    Workspaces.delete (λ s. s) store "feature-x"
    ≡ (Workspaces.answer tt, Workspaces.delete_workspace "a" ∷ [])
unfolding Workspaces.delete Workspaces.find Workspaces.find_by_id Workspaces.list_summaries
    Workspaces.by_workspace_id
delete_feature = refl

nothing_read : (n : String) (ws : WorkspaceSummary) → store.get n ≡ found ws → ws.name ≡ n
nothing_read n ws e = absurd (ground arith)

delete-IsAddressed_example : IsAddressed "feature-x" "a" [] store
delete-IsAddressed_example =
    delete-IsAddressed (λ s. s) store "feature-x" "a" (Workspaces.answer tt) [] nothing_read
      delete_feature
