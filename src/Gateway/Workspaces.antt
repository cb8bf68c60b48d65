-- ===== src/Gateway/Workspaces.antt =====
-- gateway/internal/gateway/workspaces.go: the workspaces as the gateway reads and declares them.
-- The API server answers each operation's calls; a write is returned beside the answer. The text of
-- an error is not modelled beyond its kind.
pub mod Declared
use Prim.Native.String
use Prim.Native.Char.{Char, char, code}
use parallel_workspace_serve.Prelude.{
  ℕ, zero, suc, String, Bool, true, false, List, [], ◌∷◌, Option, none, some, ◌&&◌, ◌||◌, not, ◌==◌,
  ltb, str_eq, if◌then◌else◌, is_blank, trim_left, trim_right, concat_texts,
}
use parallel_workspace_serve.Controller.Types.{WorkspaceUrls}
use parallel_workspace_serve.Controller.Api.{Read, found, not_found, failed}
use parallel_workspace_serve.Controller.Naming.{
  dash, is_dash, text_length, take_text, replace_invalid, collapse_dashes,
}

-- ErrNotFound, ErrAlreadyExists, ErrInvalid, and any other error.
pub data StoreError : Type 0 where
  err_not_found err_already_exists err_invalid : StoreError
  err_other : String → StoreError

pub data Answer (A : Type 0) : Type 0 where
  answer : A → Answer A
  refused : StoreError → Answer A

pub record WorkspaceSummary : Type 0 where
  pub name : String
  pub workspace_id : String
  pub repository : String
  pub branch : String
  pub template_ref : String
  pub phase : String
  pub session_id : String
  pub urls : WorkspaceUrls

pub record CreateWorkspaceRequest : Type 0 where
  pub repository : String
  pub branch : String
  pub base_branch : String
  pub template_ref : String
  pub git_credential_secret_ref : String

-- The object that Create sends; a field is `none` where its key is not set.
pub record Declaration : Type 0 where
  pub name : String
  pub repository : String
  pub branch : String
  pub template_ref : String
  pub base_branch : Option String
  pub git_credential_secret_ref : Option String

-- What the API server answers to a create, by the tests of apierrors.
pub data Creation : Type 0 where
  made : WorkspaceSummary → Creation
  exists_already invalid bad_request : Creation
  other_error : String → Creation

pub data Removal : Type 0 where
  removed absent : Removal
  not_removed : String → Removal

pub record Pod : Type 0 where
  pub phase : String
  pub ip : String

-- An operation calls each of these at most once. An object is read as its summary, and a patch of
-- an object answers like a delete.
pub record Server : Type 0 where
  pub get : String → Read WorkspaceSummary
  pub list : Read (List WorkspaceSummary)
  pub create : Declaration → Creation
  pub delete : String → Removal
  pub pods : String → Read (List Pod)
  pub patch : String → Option ℕ → Removal

pub data Write : Type 0 where
  create_workspace : Declaration → Write
  delete_workspace : String → Write
  -- The annotation's number, `none` to remove it.
  set_annotation : String → Option ℕ → Write

-- strings.Cut at one character, the part before it.
unfoldable pub before : ℕ → String → String
before sep String.[] = String.[]
before sep (String.◌∷◌ c s) =
    let rest = before sep s in if code c == sep then String.[] else String.◌∷◌ c rest

abbrev pub host_without_port : String → String
host_without_port host = before 58 host

abbrev pub default_supervisor_port : ℕ
default_supervisor_port = 8787

unfoldable pub by_workspace_id : String → List WorkspaceSummary → Answer WorkspaceSummary
by_workspace_id id [] = refused err_not_found
by_workspace_id id (ws ∷ all) =
    let rest = by_workspace_id id all in if str_eq ws.workspace_id id then answer ws else rest

abbrev pub given : String → Option String
given s = if is_blank s then none else some s

unfoldable pub running_pod : List Pod → Option String
running_pod [] = none
running_pod (pod ∷ pods) =
    let rest = running_pod pods in
    if str_eq pod.phase "Running" && not (is_blank pod.ip) then some pod.ip else rest

module _ (to_lower : String → String) where
  unfoldable pub sanitize_dns_label : String → String
  sanitize_dns_label s =
      let collapsed = collapse_dashes false (replace_invalid false (to_lower s)) in
      let trimmed = trim_left is_dash (trim_right is_dash collapsed) in
      if ltb 63 (text_length trimmed) then trim_right is_dash (take_text 63 trimmed) else trimmed

  module _ (server : Server) where
    unfoldable pub list_summaries : Answer (List WorkspaceSummary)
    list_summaries = elim server.list [
      | found all ↦ answer all
      | not_found e ↦ refused (err_other e)
      | failed e ↦ refused (err_other e)
    ]

    unfoldable pub find_by_id : String → Answer WorkspaceSummary
    find_by_id id = elim list_summaries [
      | refused e ↦ refused e
      | answer all ↦ by_workspace_id id all
    ]

    -- By the name, else by the workspace id.
    unfoldable pub find : String → Answer WorkspaceSummary
    find id = elim (is_blank id) [
      | true ↦ refused err_not_found
      | false ↦ elim (server.get id) [
        | found ws ↦ answer ws
        | failed e ↦ refused (err_other e)
        | not_found e ↦ find_by_id id
      ]
    ]

    unfoldable pub resolve_host : String → Answer WorkspaceSummary
    unfolding before
    resolve_host host =
        let label = before 46 (to_lower (host_without_port host)) in
        elim (is_blank label) [ true ↦ refused err_not_found | false ↦ find label ]

    abbrev pub declaration : String → String → CreateWorkspaceRequest → Declaration
    declaration default_ref name req = record {
      name = name;
      repository = req.repository;
      branch = req.branch;
      template_ref = if is_blank req.template_ref then default_ref else req.template_ref;
      base_branch = given req.base_branch;
      git_credential_secret_ref = given req.git_credential_secret_ref;
    }

    abbrev pub creation_answer : Creation → Answer WorkspaceSummary
    creation_answer (made ws) = answer ws
    creation_answer exists_already = refused err_already_exists
    creation_answer invalid = refused err_invalid
    creation_answer bad_request = refused err_invalid
    creation_answer (other_error e) = refused (err_other e)

    -- The answer and the writes.
    unfoldable pub create : String → CreateWorkspaceRequest → Answer WorkspaceSummary × List Write
    create default_ref req = elim (is_blank req.repository || is_blank req.branch) [
      | true ↦ (refused err_invalid, [])
      | false ↦ elim (is_blank (sanitize_dns_label req.branch)) [
        | true ↦ (refused err_invalid, [])
        | false ↦
            let sent = declaration default_ref (sanitize_dns_label req.branch) req in
            (creation_answer (server.create sent), create_workspace sent ∷ [])
      ]
    ]

    abbrev pub removal_answer : Removal → Answer (Unit {0})
    removal_answer removed = answer tt
    removal_answer absent = refused err_not_found
    removal_answer (not_removed e) = refused (err_other e)

    unfoldable pub delete : String → Answer (Unit {0}) × List Write
    delete id = elim (find id) [
      | refused e ↦ (refused e, [])
      | answer ws ↦ (removal_answer (server.delete ws.name), delete_workspace ws.name ∷ [])
    ]

    -- The address and the port.
    unfoldable pub session_endpoint : ℕ → WorkspaceSummary → Answer (String × ℕ)
    session_endpoint supervisor_port ws = elim (server.pods ws.name) [
      | not_found e ↦ refused (err_other e)
      | failed e ↦ refused (err_other e)
      | found pods ↦ elim (running_pod pods) [
        | none ↦ refused (err_other "gateway: workspace has no running session pod")
        | some ip ↦
            answer (ip, (if supervisor_port == 0 then default_supervisor_port else supervisor_port))
      ]
    ]

    unfoldable pub set_browser_connections : String → ℕ → Answer (Unit {0}) × List Write
    set_browser_connections name count =
        let value = if ltb 0 count then some count else none in
        (removal_answer (server.patch name value), set_annotation name value ∷ [])
