-- ===== src/Controller/Workspaces/Credentials.antt =====
-- git_credential_reconciler.go: the Git credential of a workspace.
-- strings.ToLower and strings.EqualFold of the standard library are arguments.

use Prim.Native.Char.{char, code}
use parallel_workspace_serve.Prelude.{
  String, Bool, true, false, List, [], ◌∷◌, Option, none, some, ◌==◌, str_eq, if◌then◌else◌,
  is_blank, any, concat_texts, trim_space, split_text,
}
use parallel_workspace_serve.Prelude.Outcome.{M, ok, return, fail, ◌>>=◌}
use parallel_workspace_serve.Controller.Types.{Workspace}
use parallel_workspace_serve.Controller.Api.{Read, found, not_found, failed}
use parallel_workspace_serve.Controller.Workspaces.Cluster.{
  IssuedGitCredential, CredentialSecret, Call, Trace, Cluster, Setup,
}
use parallel_workspace_serve.Controller.Workspaces.Calls.{ensured}

-- strings.TrimSuffix, for a suffix that is not empty.
unfoldable pub trim_suffix : String → String → String
trim_suffix suffix String.[] = String.[]
trim_suffix suffix (String.◌∷◌ c s) =
    let rest = trim_suffix suffix s in
    if str_eq (String.◌∷◌ c s) suffix then String.[] else String.◌∷◌ c rest

-- ":" replaced by "/".
unfoldable pub replace_colons : String → String
replace_colons String.[] = String.[]
replace_colons (String.◌∷◌ c s) =
    String.◌∷◌ (if code c == 58 then char 47 tt else c) (replace_colons s)

-- The last two fields, `none` of fewer.
unfoldable pub last_two : List String → Option (String × String)
last_two [] = none
last_two (a ∷ []) = none
last_two (a ∷ b ∷ []) = some (a, b)
last_two (a ∷ b ∷ c ∷ parts) = last_two (b ∷ c ∷ parts)

-- What a pass reads of the libraries.
module _ (to_lower : String → String) (equal_fold : String → String → Bool) where
  unfoldable pub normalize_repository_identity : String → String
  unfolding trim_suffix replace_colons last_two trim_space split_text
  normalize_repository_identity repo =
      let path = replace_colons (trim_suffix ".git" (trim_space repo)) in
      elim (last_two (split_text 47 path)) [
        | none ↦ to_lower path
        | some (owner, name) ↦ to_lower (concat_texts (owner ∷ "/" ∷ name ∷ []))
      ]

  -- GitCredentialGuard.refuses.
  unfoldable pub protects_repository : Setup → String → Bool
  protects_repository r repository =
      any
        (λ protected.
          str_eq (normalize_repository_identity protected)
            (normalize_repository_identity repository))
        r.protected_repositories

  unfoldable pub protects_branch : Setup → String → Bool
  protects_branch r branch = any (λ protected. equal_fold protected branch) r.protected_branches

  module _ (env : Cluster) (r : Setup) where
    abbrev pub get_secret : String → M Trace (Read (Unit {0}))
    get_secret name t = ok (env.get_secret t name) (Call.get_secret name ∷ t)

    abbrev pub issue : String → String → String → M Trace (Read IssuedGitCredential)
    issue name repository branch t =
        ok (env.issue_credential t name repository branch)
          (Call.issue_credential name repository branch ∷ t)

    abbrev pub create_secret : CredentialSecret → M Trace (Unit {0})
    create_secret s t = ensured (env.create_secret t s) (Call.create_secret s ∷ t)

    unfoldable pub verify_user_provided_git_credential : String → M Trace (Unit {0})
    verify_user_provided_git_credential name = get_secret name >>= λ read. elim read [
      | found u ↦ return tt
      | not_found e ↦ fail "devplatform: git credential secret not found"
      | failed e ↦ fail e
    ]

    abbrev pub secret_of : Workspace → String → IssuedGitCredential → CredentialSecret
    secret_of ws name issued = record {
      name = name;
      label = ws.name;
      secret_type = if is_blank issued.secret_type then "Opaque" else issued.secret_type;
      secret_data = issued.secret_data;
      handle = if is_blank issued.handle then none else some issued.handle;
    }

    unfoldable pub issue_missing : Workspace → String → M Trace (Unit {0})
    issue_missing ws name = issue name ws.spec.repository ws.spec.branch >>= λ read. elim read [
      | found issued ↦ create_secret (secret_of ws name issued)
      | not_found e ↦ fail e
      | failed e ↦ fail e
    ]

    unfoldable pub issue_git_credential : Workspace → String → M Trace (Unit {0})
    issue_git_credential ws name = get_secret name >>= λ read. elim read [
      | found u ↦ return tt
      | not_found e ↦ issue_missing ws name
      | failed e ↦ fail e
    ]

    unfoldable pub obtain_credential : Workspace → String → M Trace (Unit {0})
    obtain_credential ws name = elim ws.spec.git_credential_secret_ref [
      | some secret_ref ↦ verify_user_provided_git_credential secret_ref
      | none ↦ elim r.has_credential_issuer [
        | false ↦ fail "devplatform: git credential unavailable"
        | true ↦ issue_git_credential ws name
      ]
    ]

    unfoldable pub reconcile_git_credential : Workspace → String → M Trace (Unit {0})
    unfolding trim_space
    reconcile_git_credential ws name = elim (protects_repository r ws.spec.repository) [
      | true ↦ fail "devplatform: refusing to issue a git credential for protected repository"
      | false ↦ elim (protects_branch r (trim_space ws.spec.branch)) [
        | true ↦
            fail
              "devplatform: refusing to issue a git credential that could push to protected branch"
        | false ↦ obtain_credential ws name
      ]
    ]
