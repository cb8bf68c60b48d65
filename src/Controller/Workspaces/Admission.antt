-- ===== src/Controller/Workspaces/Admission.antt =====
-- admission.go: whether a workspace may be provisioned now.
-- A quantity is a number of its smallest unit, as `parse_quantity` of the API's library reads it,
-- `none` where that fails; the text of such an error is not modelled further.
pub mod Budget
use Prim.Native.String
use parallel_workspace_serve.Prelude.{
  ℕ, zero, suc, ◌+◌, String, Bool, true, false, List, [], ◌∷◌, Option, none, some, ◌&&◌, ◌||◌, not,
  ltb, str_eq, if◌then◌else◌, is_blank, any, has_prefix, has_suffix,
}
use parallel_workspace_serve.Prelude.Outcome.{M, ok, err, return, fail, ◌>>=◌, ◌>>◌}
use parallel_workspace_serve.Controller.Types.{
  Workspace, WorkspacePhase, ConditionStatus, Message, CtrlResult, requeue_after,
}
use parallel_workspace_serve.Controller.Templates.{WorkspaceTemplate}
use parallel_workspace_serve.Controller.Conditions.{ConditionOps}
use parallel_workspace_serve.Controller.Api.{Read, found, not_found, failed}
use parallel_workspace_serve.Controller.Workspaces.Resources.{
  Quantities, or_default_size, parse_resource_list,
}
use parallel_workspace_serve.Controller.Workspaces.Cluster.{
  Node, ResourceQuota, Call, Trace, Cluster, Setup,
}
use parallel_workspace_serve.Controller.Workspaces.Calls.{
  poll_interval, update_status, list_workspaces,
}
use parallel_workspace_serve.Controller.Workspaces.Evacuation.{condition, set_condition}
use parallel_workspace_serve.Controller.Workspaces.Lifecycle.{
  condition_duplicate_of_existing, is_true, get_template,
}

abbrev pub condition_resource_waiting : String
condition_resource_waiting = "ResourceWaiting"

abbrev pub workspace_resource_quota_name : String
workspace_resource_quota_name = "devplatform-workspace-quota"

-- From the first "@sha256:" on.
unfoldable pub image_digest_suffix : String → String
unfolding has_prefix
image_digest_suffix String.[] = ""
image_digest_suffix (String.◌∷◌ c s) =
    let rest = image_digest_suffix s in
    if has_prefix (String.◌∷◌ c s) "@sha256:" then String.◌∷◌ c s else rest

unfoldable pub names_image : String → String → Bool
unfolding has_suffix image_digest_suffix
names_image image name =
    let digest = image_digest_suffix image in
    str_eq name image || (not (is_blank digest) && has_suffix name digest)

unfoldable pub has_image : String → List (List String) → Bool
has_image image [] = false
has_image image (names ∷ images) = any (names_image image) names || has_image image images

-- What the quota governs and a workspace needs of it.
abbrev pub quota_checks : Quantities → Quantities → ℕ → List (String × ℕ)
quota_checks requests limits one_pod =
    ("pods", one_pod)
    ∷ ("requests.cpu", requests.cpu)
    ∷ ("requests.memory", requests.memory)
    ∷ ("limits.cpu", limits.cpu)
    ∷ ("limits.memory", limits.memory)
    ∷ []

abbrev pub amount_or_zero : Option ℕ → ℕ
amount_or_zero none = 0
amount_or_zero (some n) = n

-- Whether less is left than is needed.
unfoldable pub is_short : ResourceQuota → String → ℕ → Bool
is_short quota name needed = elim (quota.hard name) [
  | none ↦ false
  | some hard ↦ ltb hard (amount_or_zero (quota.used name) + needed)
]

-- The first resource of which too little is left.
unfoldable pub short_resource : ResourceQuota → List (String × ℕ) → Option String
short_resource quota [] = none
short_resource quota ((name, needed) ∷ checks) =
    let rest = short_resource quota checks in if is_short quota name needed then some name else rest

abbrev pub is_failed : WorkspacePhase → Bool
is_failed WorkspacePhase.failed = true
is_failed _ = false

-- `held` brings the reason and the message of the condition.
pub data Verdict : Type 0 where
  admitted : Verdict
  held : String → Message → Verdict

module _ (env : Cluster) (ops : ConditionOps) (r : Setup) (parse_quantity : String → Option ℕ)
    (one_pod : ℕ) where
  unfoldable pub image_staged_on_node : String → String → M Trace Bool
  image_staged_on_node name image t = elim (env.get_node t name) [
    | found node ↦ ok (has_image image node.images) (Call.get_node name ∷ t)
    | not_found e ↦ ok false (Call.get_node name ∷ t)
    | failed e ↦ err e (Call.get_node name ∷ t)
  ]

  abbrev pub get_resource_quota : M Trace (Read ResourceQuota)
  get_resource_quota t =
      ok (env.get_resource_quota t workspace_resource_quota_name)
        (Call.get_resource_quota workspace_resource_quota_name ∷ t)

  -- Whether there is room, and else of what there is none.
  unfoldable pub quota_room : ResourceQuota → WorkspaceTemplate → M Trace (Option String)
  quota_room quota tmpl = elim (parse_resource_list parse_quantity tmpl.resources.requests) [
    | none ↦ fail "devplatform: invalid quantity"
    | some requests ↦ elim (parse_resource_list parse_quantity tmpl.resources.limits) [
      | none ↦ fail "devplatform: invalid quantity"
      | some limits ↦ return (short_resource quota (quota_checks requests limits one_pod))
    ]
  ]

  unfoldable pub resource_quota_has_room : WorkspaceTemplate → M Trace (Option String)
  resource_quota_has_room tmpl = get_resource_quota >>= λ read. elim read [
    | not_found e ↦ return none
    | failed e ↦ fail e
    | found quota ↦ quota_room quota tmpl
  ]

  abbrev pub storage_quantity : String → Option ℕ
  storage_quantity size = parse_quantity (or_default_size size)

  -- Whether the working directory of another workspace counts.
  unfoldable pub counts : Workspace → Workspace → Bool
  counts ws other =
      not (str_eq other.name ws.name || other.deleting)
      && not (is_failed other.status.phase)
      && not (is_true env ops r condition_duplicate_of_existing other)

  -- The total with the working directory of a template, where it is on the node.
  unfoldable pub add_size : String → WorkspaceTemplate → ℕ → M Trace ℕ
  add_size node other total = elim (str_eq other.node_name node) [
    | false ↦ return total
    | true ↦ elim (storage_quantity other.storage.size) [
      | none ↦ fail "devplatform: invalid storage size"
      | some size ↦ return (total + size)
    ]
  ]

  unfoldable pub add_declared : Workspace → String → Workspace → ℕ → M Trace ℕ
  add_declared ws node other total = elim (counts ws other) [
    | false ↦ return total
    | true ↦ get_template env ops r other >>= λ read. elim read [
      | not_found e ↦ return total
      | failed e ↦ fail e
      | found template ↦ add_size node template total
    ]
  ]

  unfoldable pub declared_total : Workspace → String → List Workspace → ℕ → M Trace ℕ
  declared_total ws node [] total = return total
  declared_total ws node (other ∷ items) total =
      add_declared ws node other total >>= declared_total ws node items

  abbrev pub over_budget : ℕ → ℕ → Option ℕ
  over_budget budget total = if ltb budget total then some total else none

  unfoldable pub disk_room : Workspace → String → ℕ → ℕ → M Trace (Option ℕ)
  disk_room ws node budget size = list_workspaces env >>= λ read. elim read [
    | not_found e ↦ fail e
    | failed e ↦ fail e
    | found items ↦ declared_total ws node items size >>= λ total. return (over_budget budget total)
  ]

  -- Whether there is room: `none`, or the budget and the total that is past it.
  unfoldable pub node_disk_budget_has_room :
      Workspace → WorkspaceTemplate → M Trace (Option (ℕ × ℕ))
  node_disk_budget_has_room ws tmpl = elim (is_blank tmpl.storage.node_disk_budget) [
    | true ↦ return none
    | false ↦ elim (parse_quantity tmpl.storage.node_disk_budget) [
      | none ↦ fail "devplatform: invalid nodeDiskBudget"
      | some budget ↦ elim (storage_quantity tmpl.storage.size) [
        | none ↦ fail "devplatform: invalid storage size"
        | some size ↦ disk_room ws tmpl.node_name budget size >>= λ over. elim over [
          | none ↦ return none
          | some total ↦ return (some (budget, total))
        ]
      ]
    ]
  ]

  unfoldable pub disk_verdict : Workspace → WorkspaceTemplate → M Trace Verdict
  disk_verdict ws tmpl = node_disk_budget_has_room ws tmpl >>= λ over. elim over [
    | none ↦ return admitted
    | some (budget, total) ↦
        return (held "QuotaExceeded" (Message.disk_budget_exceeded tmpl.node_name budget total))
  ]

  unfoldable pub quota_verdict : Workspace → WorkspaceTemplate → M Trace Verdict
  quota_verdict ws tmpl = resource_quota_has_room tmpl >>= λ short. elim short [
    | some name ↦ return (held "QuotaExceeded" (Message.no_quota_left name))
    | none ↦ disk_verdict ws tmpl
  ]

  unfoldable pub admission_blocked : Workspace → WorkspaceTemplate → M Trace Verdict
  admission_blocked ws tmpl = image_staged_on_node tmpl.node_name tmpl.image >>= λ staged.
      elim staged [
        | false ↦
            return (held "ImageNotStaged" (Message.image_not_staged tmpl.image tmpl.node_name))
        | true ↦ quota_verdict ws tmpl
      ]

  unfoldable pub hold : Workspace → String → Message → M Trace (Workspace × Bool)
  hold ws reason message = do
    ws' ←
        set_condition env ops r
          (condition condition_resource_waiting ConditionStatus.condition_true reason message) ws
    update_status env ws'
    return (ws', false)

  unfoldable pub grant : Workspace → M Trace (Workspace × Bool)
  grant ws = elim (is_true env ops r condition_resource_waiting ws) [
    | false ↦ return (ws, true)
    | true ↦ do
      ws' ←
          set_condition env ops r
            (condition condition_resource_waiting ConditionStatus.condition_false "AdmissionGranted"
              (Message.text "resource limits are no longer exceeded"))
            ws
      update_status env ws'
      return (ws', true)
  ]

  -- The workspace as it is left, and whether it may be provisioned; else the pass ends and runs
  -- again after the poll interval.
  unfoldable pub reconcile_admission : Workspace → WorkspaceTemplate → M Trace (Workspace × Bool)
  reconcile_admission ws tmpl = admission_blocked ws tmpl >>= λ verdict. elim verdict [
    | held reason message ↦ hold ws reason message
    | admitted ↦ grant ws
  ]
