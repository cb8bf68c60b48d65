-- ===== src/Controller/Workspaces/Owners.antt =====
-- workspace_controller.go: `findCanonical`, which workspace owns a branch.
pub mod Agreement
use parallel_workspace_serve.Prelude.{
  ℕ, String, Bool, true, false, List, [], ◌∷◌, Option, none, some, ◌&&◌, str_eq, if◌then◌else◌, not,
  keep_if,
}
use parallel_workspace_serve.Prelude.Outcome.{M, ok, err}
use parallel_workspace_serve.Controller.Types.{Workspace}
use parallel_workspace_serve.Controller.Api.{Read, found, not_found, failed}
use parallel_workspace_serve.Controller.TaskQueue.Pass.{is_older}
use parallel_workspace_serve.Controller.Workspaces.Cluster.{Call, Trace, Cluster}

-- The candidates: the other live workspaces of the repository and branch.
unfoldable pub is_candidate : Workspace → Workspace → Bool
is_candidate ws item =
    not (str_eq item.name ws.name)
    && str_eq item.spec.repository ws.spec.repository
    && str_eq item.spec.branch ws.spec.branch
    && not item.deleting

unfoldable pub is_elder : Workspace → Workspace → Bool
is_elder a b = is_older a.creation_timestamp a.name b.creation_timestamp b.name

-- sort.Slice by age, ties broken by name.
unfoldable pub insert_workspace : Workspace → List Workspace → List Workspace
insert_workspace a [] = a ∷ []
insert_workspace a (b ∷ bs) = if is_elder b a then b ∷ insert_workspace a bs else a ∷ b ∷ bs

unfoldable pub sort_workspaces : List Workspace → List Workspace
sort_workspaces [] = []
sort_workspaces (a ∷ items) = insert_workspace a (sort_workspaces items)

-- The answer for the sorted candidates; `none` where `ws` itself is the owner.
unfoldable pub choose : Workspace → List Workspace → Option Workspace
choose ws [] = none
choose ws (oldest ∷ rest) = if is_elder ws oldest then none else some oldest

unfoldable pub canonical_of : Workspace → List Workspace → Option Workspace
canonical_of ws items = choose ws (sort_workspaces (keep_if (is_candidate ws) items))

module _ (env : Cluster) where
  unfoldable pub find_canonical : Workspace → M Trace (Option Workspace)
  find_canonical ws t = elim (env.list_workspaces t) [
    | found items ↦ ok (canonical_of ws items) (Call.list_workspaces ∷ t)
    | not_found e ↦ err e (Call.list_workspaces ∷ t)
    | failed e ↦ err e (Call.list_workspaces ∷ t)
  ]
