-- ===== src/Controller/Workspaces/Admission/Budget.antt =====
-- admission.go: what an admitted workspace leaves of a node's disk.
use parallel_workspace_serve.Prelude.{
  not, Bool, ℕ, ◌+◌, ◌≤◌, ◌<◌, String, false, List, [], ◌∷◌, Option, none, some, ◌⊎◌, is_blank,
  str_eq, if◌then◌else◌, ◌≡◌, arith,
}
use parallel_workspace_serve.Prelude.Outcome.{ok}
use parallel_workspace_serve.Controller.Types.{Workspace}
use parallel_workspace_serve.Controller.Templates.{WorkspaceTemplate}
use parallel_workspace_serve.Controller.Conditions.{ConditionOps}
use parallel_workspace_serve.Controller.Api.{Read, found, not_found, failed}
use parallel_workspace_serve.Controller.Workspaces.Cluster.{Trace, Cluster, Setup}
use parallel_workspace_serve.Controller.Workspaces.Calls.{list_workspaces}
use parallel_workspace_serve.Controller.Workspaces.Lifecycle.{is_true}
use parallel_workspace_serve.Controller.Workspaces.Admission.{
  is_failed, amount_or_zero, counts, storage_quantity, add_size, add_declared, declared_total,
  disk_room, node_disk_budget_has_room,
}

-- The total fits the budget, or the two are named.
abbrev pub Fits : ℕ → ℕ → Option (ℕ × ℕ) → Type 0
Fits budget total over =
    ((over ≡ none) × (total ≤ budget)) ⊎ ((over ≡ some (budget, total)) × (budget < total))

module _ (env : Cluster) (ops : ConditionOps) (r : Setup) (parse_quantity : String → Option ℕ)
    (one_pod : ℕ) (lookup : String → Read WorkspaceTemplate) where
  -- What a workspace of the template takes of the node's disk.
  abbrev pub size_on : String → Read WorkspaceTemplate → ℕ
  size_on node (found tmpl) =
      if str_eq tmpl.node_name node
      then amount_or_zero
          (parse_quantity (if is_blank tmpl.storage.size then "20Gi" else tmpl.storage.size))
      else 0
  size_on node (not_found e) = 0
  size_on node (failed e) = 0

  -- The other workspaces that have a working directory of their own.
  abbrev pub is_tenant : Workspace → Workspace → Bool
  is_tenant ws other =
      if str_eq other.name ws.name
      then false
      else if other.deleting
      then false
      else if is_failed other.status.phase
      then false
      else not (is_true env ops r "DuplicateOfExisting" other)

  -- What they have declared on the node.
  abbrev pub declared : Workspace → String → List Workspace → ℕ
  declared ws node [] = 0
  declared ws node (other ∷ items) =
      (if is_tenant ws other then size_on node (lookup other.spec.template_ref) else 0)
      + declared ws node items

  add_declared-lem :
      (ws other : Workspace) (node : String) (total n : ℕ) (t u : Trace)
      → env.get_template t other.spec.template_ref ≡ lookup other.spec.template_ref
      → add_declared env ops r parse_quantity one_pod ws node other total t ≡ ok n u
      → n
        ≡ total + (if is_tenant ws other then size_on node (lookup other.spec.template_ref) else 0)
  unfolding add_declared add_size counts
  add_declared-lem ws other node total n t u same e = ground arith

  declared_total-lem :
      (ws : Workspace) (node : String) (items : List Workspace) (total n : ℕ) (t u : Trace)
      → ((v : Trace) (name : String) → env.get_template v name ≡ lookup name)
      → declared_total env ops r parse_quantity one_pod ws node items total t ≡ ok n u
      → n ≡ total + declared ws node items
  unfolding declared_total
  declared_total-lem ws node [] total n t u same e = ground arith
  declared_total-lem ws node (other ∷ items) total n t u same e =
      grind (arith, add_declared-lem ws other node, declared_total-lem ws node items, same)

  -- A workspace passes the check of the disk budget just where its own size and what the others
  -- with a working directory have declared on the node come to at most the budget; else the check names the
  -- budget and that total. This is for a list of workspaces and templates that do not change while
  -- the check reads them, and for a check that ends without an error.
  pub node_disk_budget_has_room-declared :
      (ws : Workspace) (tmpl : WorkspaceTemplate) (items : List Workspace) (budget size : ℕ)
      (t u : Trace) (over : Option (ℕ × ℕ))
      → ((v : Trace) → env.list_workspaces v ≡ found items)
      → ((v : Trace) (name : String) → env.get_template v name ≡ lookup name)
      → is_blank tmpl.storage.node_disk_budget ≡ false
      → parse_quantity tmpl.storage.node_disk_budget ≡ some budget
      → storage_quantity env ops r parse_quantity one_pod tmpl.storage.size ≡ some size
      → node_disk_budget_has_room env ops r parse_quantity one_pod ws tmpl t ≡ ok over u
      → Fits budget (size + declared ws tmpl.node_name items) over
  unfolding node_disk_budget_has_room disk_room list_workspaces
  node_disk_budget_has_room-declared ws tmpl items budget size t u over listed same set b s e =
      grind (arith, declared_total-lem ws tmpl.node_name items size, same, listed)
