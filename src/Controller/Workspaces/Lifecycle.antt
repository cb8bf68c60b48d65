-- ===== src/Controller/Workspaces/Lifecycle.antt =====
-- lifecycle.go: suspending, resuming and destroying a workspace.
use parallel_workspace_serve.Prelude.{
  ℕ, ◌*◌, ◌-◌, String, Bool, true, false, ◌∷◌, Option, none, some, leb, ◌&&◌,
}
use parallel_workspace_serve.Prelude.Outcome.{M, ok, err, return, fail, ◌>>=◌, ◌>>◌}
use parallel_workspace_serve.Controller.Types.{
  Workspace, WorkspacePhase, DesiredPhase, EvacuationDetail, Condition, ConditionStatus, Message,
}
use parallel_workspace_serve.Controller.Templates.{WorkspaceTemplate}
use parallel_workspace_serve.Controller.Conditions.{ConditionOps}
use parallel_workspace_serve.Controller.Api.{Read, found, not_found, failed}
use parallel_workspace_serve.Controller.Workspaces.Cluster.{Call, Trace, Cluster, Setup}
use parallel_workspace_serve.Controller.Workspaces.Calls.{
  now, update_status, get_stateful_set, notify, written,
}
use parallel_workspace_serve.Controller.Workspaces.Evacuation.{condition, set_condition}

abbrev pub default_idle_suspend_timeout : ℕ
default_idle_suspend_timeout = 30 * 60

abbrev pub default_suspended_retention_period : ℕ
default_suspended_retention_period = 7 * 24 * 3600

abbrev pub idle_check_interval : ℕ
idle_check_interval = 60

abbrev pub condition_suspended : String
condition_suspended = "Suspended"

abbrev pub condition_resume_requested : String
condition_resume_requested = "ResumeRequested"

abbrev pub condition_destroy_candidate : String
condition_destroy_candidate = "DestroyCandidate"

abbrev pub condition_node_available : String
condition_node_available = "NodeAvailable"

abbrev pub condition_duplicate_of_existing : String
condition_duplicate_of_existing = "DuplicateOfExisting"

abbrev pub event_node_unavailable : String
event_node_unavailable = "NodeUnavailable"

abbrev pub is_suspended : WorkspacePhase → Bool
is_suspended WorkspacePhase.suspended = true
is_suspended _ = false

abbrev pub is_terminating : WorkspacePhase → Bool
is_terminating WorkspacePhase.terminating = true
is_terminating _ = false

abbrev pub asks_suspension : DesiredPhase → Bool
asks_suspension DesiredPhase.suspended = true
asks_suspension _ = false

abbrev pub same_status : ConditionStatus → ConditionStatus → Bool
same_status ConditionStatus.condition_true ConditionStatus.condition_true = true
same_status ConditionStatus.condition_false ConditionStatus.condition_false = true
same_status ConditionStatus.condition_unknown ConditionStatus.condition_unknown = true
same_status _ _ = false

abbrev pub has_status : ConditionStatus → Option Condition → Bool
has_status s none = false
has_status s (some c) = same_status c.status s

-- The zero time is long ago: the difference from it is past every limit.
abbrev pub is_past : ℕ → Option ℕ → ℕ → Bool
is_past now' none limit = true
is_past now' (some at) limit = leb limit (now' - at)

unfoldable pub evacuation_status_detail : Workspace → EvacuationDetail
evacuation_status_detail ws = elim ws.status.last_evacuation [
  | none ↦ EvacuationDetail.no_snapshot
  | some snap ↦ EvacuationDetail.evacuated_to snap.captured_at snap.bundle_key
]

abbrev pub with_phase : WorkspacePhase → Workspace → Workspace
with_phase phase ws = record ws { status = record ws.status { phase = phase } }

abbrev pub active_at : ℕ → Workspace → Workspace
active_at at ws = record ws { status = record ws.status { last_activity_at = some at } }

module _ (env : Cluster) (ops : ConditionOps) (r : Setup) where
  abbrev pub is_true : String → Workspace → Bool
  is_true type ws =
      has_status ConditionStatus.condition_true
        (ops.find_status_condition ws.status.conditions type)

  abbrev pub is_false : String → Workspace → Bool
  is_false type ws =
      has_status ConditionStatus.condition_false
        (ops.find_status_condition ws.status.conditions type)

  unfoldable pub mark_activity : Workspace → M Trace Workspace
  unfolding now set_condition update_status
  mark_activity ws = do
    at ← now env
    ws' ← elim (is_suspended ws.status.phase) [
      | false ↦ return (active_at at ws)
      | true ↦
          set_condition env ops r
            (condition condition_resume_requested ConditionStatus.condition_true "ActivityDetected"
              (Message.text "a connection or task request was received while suspended"))
            (active_at at ws)
    ]
    update_status env ws'
    return ws'

  unfoldable pub node_available : String → M Trace Bool
  node_available name t = elim (env.get_node t name) [
    | found node ↦ elim node.ready [
      | none ↦ ok false (Call.get_node name ∷ t)
      | some ready ↦ ok ready (Call.get_node name ∷ t)
    ]
    | not_found e ↦ ok false (Call.get_node name ∷ t)
    | failed e ↦ err e (Call.get_node name ∷ t)
  ]

  unfoldable pub node_returned : Workspace → String → M Trace Workspace
  unfolding set_condition update_status
  node_returned ws name =
      elim (ops.find_status_condition ws.status.conditions condition_node_available) [
        | none ↦ return ws
        | some c ↦ do
          ws' ←
              set_condition env ops r
                (condition condition_node_available ConditionStatus.condition_true "NodeReady"
                  (Message.node_ready name))
                ws
          update_status env ws'
          return ws'
      ]

  unfoldable pub node_lost : Workspace → String → M Trace Workspace
  unfolding set_condition update_status notify evacuation_status_detail
  node_lost ws name = elim (is_false condition_node_available ws) [
    | true ↦ return ws
    | false ↦ do
      let detail = Message.node_unavailable name (evacuation_status_detail ws)
      ws' ←
          set_condition env ops r
            (condition condition_node_available ConditionStatus.condition_false "NodeUnavailable"
              detail)
            ws
      update_status env ws'
      notify r ws' event_node_unavailable detail
      return ws'
  ]

  abbrev pub get_template : Workspace → M Trace (Read WorkspaceTemplate)
  get_template ws t =
      ok (env.get_template t ws.spec.template_ref) (Call.get_template ws.spec.template_ref ∷ t)

  -- The workspace as it was left.
  unfoldable pub check_node_available : Workspace → M Trace Workspace
  unfolding node_available node_returned node_lost
  check_node_available ws = do
    template ← get_template ws
    elim template [
      | not_found e ↦ return ws
      | failed e ↦ fail e
      | found tmpl ↦ node_available tmpl.node_name >>= λ available. elim available [
        | true ↦ node_returned ws tmpl.node_name
        | false ↦ node_lost ws tmpl.node_name
      ]
    ]

  abbrev pub is_scaled : ℕ → Option ℕ → Bool
  is_scaled n none = false
  is_scaled n (some m) = leb n m && leb m n

  abbrev pub update_replicas : String → ℕ → M Trace (Unit {0})
  update_replicas name n t =
      written (env.update_replicas t name n) (Call.update_replicas name n ∷ t)

  unfoldable pub scale_stateful_set : String → ℕ → M Trace (Unit {0})
  unfolding get_stateful_set
  scale_stateful_set name n = do
    read ← get_stateful_set env name
    elim read [
      | not_found e ↦ return tt
      | failed e ↦ fail e
      | found sts ↦ elim (is_scaled n sts.replicas) [
        | true ↦ return tt
        | false ↦ update_replicas name n
      ]
    ]
