-- ===== src/Controller/Workspaces/Evacuation.antt =====
-- evacuation.go and evacuation_request.go: capturing the working directory before the compute is
-- stopped, and the gate of the delete.
use parallel_workspace_serve.Prelude.{
  ℕ, String, Bool, true, false, List, [], ◌∷◌, none, some, str_eq, if◌then◌else◌, ltb, any,
}
use parallel_workspace_serve.Prelude.Outcome.{M, ok, err, return, fail, ◌>>=◌, ◌>>◌}
use parallel_workspace_serve.Controller.Types.{
  Workspace, EvacuationSnapshot, Condition, ConditionStatus, Message,
}
use parallel_workspace_serve.Controller.Conditions.{ConditionOps}
use parallel_workspace_serve.Controller.Api.{Read, found, not_found, failed}
use parallel_workspace_serve.Controller.Workspaces.Cluster.{Call, Trace, Cluster, Setup}
use parallel_workspace_serve.Controller.Workspaces.Calls.{
  now, update_status, update_workspace, get_stateful_set, notify,
}

abbrev pub evacuation_finalizer : String
evacuation_finalizer = "workspace.tom1022.github.io/evacuation"

abbrev pub evacuation_poll_interval : ℕ
evacuation_poll_interval = 10

abbrev pub condition_evacuated : String
condition_evacuated = "Evacuated"

abbrev pub event_evacuation_failed : String
event_evacuation_failed = "EvacuationFailed"

-- A workspace with another status, or other conditions in it.
abbrev pub with_conditions : List Condition → Workspace → Workspace
with_conditions cs ws = record ws { status = record ws.status { conditions = cs } }

abbrev pub condition : String → ConditionStatus → String → Message → Condition
condition type status reason message = record {
  type = type;
  status = status;
  reason = reason;
  message = message;
  last_transition_time = none;
}

abbrev pub error_text : {A : Type 0} → Read A → String
error_text (found a) = ""
error_text (not_found e) = e
error_text (failed e) = e

-- `StatusEvacuationConfirmer`, the confirmer of the shipped deployment.
unfoldable pub is_evacuation_complete : Workspace → Bool
is_evacuation_complete ws = elim ws.status.last_evacuation [ none ↦ false | some snap ↦ true ]

-- `controllerutil.RemoveFinalizer`, and AddFinalizer below, on the list of the finalizers.
abbrev pub drop_finalizer : String → List String → List String
drop_finalizer f [] = []
drop_finalizer f (g ∷ gs) = if str_eq g f then drop_finalizer f gs else g ∷ drop_finalizer f gs

module _ (env : Cluster) (ops : ConditionOps) (r : Setup) where
  -- meta.SetStatusCondition on the status of `ws`.
  unfoldable pub set_condition : Condition → Workspace → M Trace Workspace
  unfolding now
  set_condition c ws = do
    at ← now env
    return (with_conditions (ops.set_status_condition at ws.status.conditions c).0 ws)

  unfoldable pub evacuation_complete : Workspace → M Trace Bool
  evacuation_complete ws t = elim r.has_confirmer [
    | false ↦ err "devplatform: no EvacuationConfirmer configured" t
    | true ↦ elim (env.confirm_evacuation t ws) [
      | found complete ↦ ok complete (Call.confirm_evacuation ws ∷ t)
      | not_found e ↦ err e (Call.confirm_evacuation ws ∷ t)
      | failed e ↦ err e (Call.confirm_evacuation ws ∷ t)
    ]
  ]

  unfoldable pub remove_evacuation_finalizer : Workspace → M Trace (Unit {0})
  unfolding update_workspace
  remove_evacuation_finalizer ws = elim (any (λ f. str_eq f evacuation_finalizer) ws.finalizers) [
    | false ↦ return tt
    | true ↦
        update_workspace env
          (record ws { finalizers = drop_finalizer evacuation_finalizer ws.finalizers })
  ]

  unfoldable pub compute_running : String → M Trace Bool
  unfolding get_stateful_set
  compute_running name = do
    read ← get_stateful_set env name
    elim read [
      | found sts ↦ return (ltb 0 sts.ready_replicas)
      | not_found e ↦ return false
      | failed e ↦ fail e
    ]

  unfoldable pub requested : Workspace → M Trace (Read EvacuationSnapshot)
  requested ws t = ok (env.request_evacuation t ws) (Call.request_evacuation ws ∷ t)

  -- The evacuation failed: the status says so, and somebody is told.
  unfoldable pub refuse_stop : Workspace → String → M Trace (Workspace × Bool)
  unfolding set_condition notify update_status
  refuse_stop ws e = do
    ws' ←
        set_condition
          (condition condition_evacuated ConditionStatus.condition_false "EvacuationFailed"
            (Message.text e))
          ws
    notify r ws' event_evacuation_failed (Message.text e)
    update_status env ws'
    return (ws', false)

  abbrev pub with_snapshot : EvacuationSnapshot → Workspace → Workspace
  with_snapshot snap ws = record ws { status = record ws.status { last_evacuation = some snap } }

  unfoldable pub record_capture : Workspace → EvacuationSnapshot → M Trace (Workspace × Bool)
  unfolding set_condition update_status
  record_capture ws snap = do
    ws' ←
        set_condition
          (condition condition_evacuated ConditionStatus.condition_true "SnapshotCaptured"
            (Message.captured_to snap.bundle_key))
          (with_snapshot snap ws)
    update_status env ws'
    return (ws', true)

  unfoldable pub capture : Workspace → M Trace (Workspace × Bool)
  unfolding requested refuse_stop record_capture
  capture ws = elim r.has_requester [
    | false ↦ fail "devplatform: no EvacuationRequester configured"
    | true ↦ requested ws >>= λ answer. elim answer [
      | found snap ↦ record_capture ws snap
      | not_found e ↦ refuse_stop ws e
      | failed e ↦ refuse_stop ws e
    ]
  ]

  -- The workspace as it was left, and whether its compute may be stopped.
  unfoldable pub evacuate_before_stop : Workspace → String → M Trace (Workspace × Bool)
  unfolding compute_running capture
  evacuate_before_stop ws name = elim (str_eq name "") [
    | true ↦ return (ws, true)
    | false ↦ compute_running name >>= λ running. elim running [
      | false ↦ return (ws, true)
      | true ↦ capture ws
    ]
  ]
