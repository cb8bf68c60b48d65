-- ===== src/Controller/Workspaces/Passes.antt =====
-- lifecycle.go: a pass over a workspace that is Ready, Suspended or being destroyed.
use Prim.Native.String
use parallel_workspace_serve.Prelude.{
  ℕ, String, Bool, true, false, ◌∷◌, Option, none, some, ◌||◌, str_eq, if◌then◌else◌, ltb, not,
}
use parallel_workspace_serve.Prelude.Outcome.{M, ok, return, fail, ◌>>=◌, ◌>>◌}
use parallel_workspace_serve.Controller.Types.{
  Workspace, WorkspacePhase, BlackboardEntry, Condition, ConditionStatus, Message, CtrlResult,
  requeue_after,
}
use parallel_workspace_serve.Controller.Conditions.{ConditionOps}
use parallel_workspace_serve.Controller.Api.{Read, found, not_found, failed}
use parallel_workspace_serve.Controller.Workspaces.Cluster.{Call, Trace, Cluster, Setup}
use parallel_workspace_serve.Controller.Workspaces.Calls.{
  now, update_status, get_stateful_set, delete_stateful_set, delete_pvc, release_database,
}
use parallel_workspace_serve.Controller.Workspaces.Evacuation.{
  condition, with_conditions, set_condition, evacuation_poll_interval, evacuate_before_stop,
  evacuation_complete, remove_evacuation_finalizer,
}
use parallel_workspace_serve.Controller.Workspaces.Lifecycle.{
  default_idle_suspend_timeout, default_suspended_retention_period, idle_check_interval,
  condition_suspended, condition_resume_requested, condition_destroy_candidate,
  condition_duplicate_of_existing, is_terminating, asks_suspension, is_past, with_phase, active_at,
  is_true, check_node_available, scale_stateful_set, same_status,
}

module _ (env : Cluster) (ops : ConditionOps) (r : Setup) where
  abbrev pub suspended_at : ℕ → String → Condition
  suspended_at at reason = record {
    type = condition_suspended;
    status = ConditionStatus.condition_true;
    reason = reason;
    message = Message.text "execution environment stopped; working directory retained (13.2)";
    last_transition_time = some at;
  }

  abbrev pub browser_connections : Workspace → ℕ
  browser_connections ws = elim ws.browser_connections [ none ↦ 0 | some n ↦ n ]

  abbrev pub count_sessions : Workspace → M Trace (Read ℕ)
  count_sessions ws t = ok (env.ssh_session_count t ws) (Call.ssh_session_count ws ∷ t)

  unfoldable pub connected : Workspace → M Trace Bool
  connected ws = elim (ltb 0 (browser_connections ws)) [
    | true ↦ return true
    | false ↦ elim r.has_session_counter [
      | false ↦ return false
      | true ↦ count_sessions ws >>= λ read. elim read [
        | found n ↦ return (ltb 0 n)
        | not_found e ↦ return false
        | failed e ↦ return false
      ]
    ]
  ]

  unfoldable pub is_idle : Workspace → M Trace Bool
  unfolding now
  is_idle ws = elim ws.status.last_activity_at [
    | none ↦ return false
    | some at ↦ now env >>= λ now'. return (is_past now' (some at) default_idle_suspend_timeout)
  ]

  -- The last write of a suspension.
  unfoldable pub mark_suspended : Workspace → M Trace CtrlResult
  unfolding now set_condition update_status
  mark_suspended ws = do
    at ← now env
    ws' ←
        set_condition env ops r
          (suspended_at at
            (if asks_suspension ws.spec.desired_phase then "SuspendRequested" else "IdleTimeout"))
          (with_phase WorkspacePhase.suspended ws)
    update_status env ws'
    return CtrlResult.done

  -- After the evacuation, by what it answered.
  unfoldable pub scale_down : String → Workspace × Bool → M Trace CtrlResult
  unfolding scale_stateful_set mark_suspended
  scale_down name (ws, false) = return (requeue_after idle_check_interval)
  scale_down name (ws, true) = scale_stateful_set env ops r name 0 >> mark_suspended ws

  unfoldable pub suspend : Workspace → M Trace CtrlResult
  suspend ws = elim (str_eq ws.status.workspace_id "") [
    | true ↦ mark_suspended ws
    | false ↦
        evacuate_before_stop env ops r ws ws.status.workspace_id
        >>= scale_down ws.status.workspace_id
  ]

  -- Whether a developer holds the workspace, which is not asked where a suspension is requested.
  unfoldable pub is_held : Workspace → M Trace Bool
  is_held ws = elim (asks_suspension ws.spec.desired_phase) [
    | true ↦ return false
    | false ↦ connected ws
  ]

  -- `reconcileReady` after the refreshes that it starts with.
  unfoldable pub suspend_if_idle : Workspace → M Trace CtrlResult
  suspend_if_idle ws = do
    idle ← is_idle ws
    let asked = asks_suspension ws.spec.desired_phase
    held ← is_held ws
    elim held [
      | true ↦ do
        at ← now env
        update_status env (active_at at ws)
        return (requeue_after idle_check_interval)
      | false ↦ elim (idle || asked) [
        | false ↦ return (requeue_after idle_check_interval)
        | true ↦ suspend ws
      ]
    ]

  abbrev pub resumed : String → ℕ → Workspace → Workspace
  resumed name at ws = record ws {
    status = record ws.status {
      phase = WorkspacePhase.ready;
      session_id = String.◌++◌ name "-session";
      last_activity_at = some at;
    };
  }

  abbrev pub remove_condition : String → Workspace → Workspace
  remove_condition type ws =
      with_conditions (ops.remove_status_condition ws.status.conditions type) ws

  abbrev pub resumed_at : ℕ → Condition
  resumed_at at = record {
    type = condition_suspended;
    status = ConditionStatus.condition_false;
    reason = "Resumed";
    message = Message.text "workspace resumed from suspension";
    last_transition_time = some at;
  }

  unfoldable pub mark_resumed : String → Workspace → M Trace CtrlResult
  unfolding now set_condition update_status
  mark_resumed name ws = do
    at ← now env
    at' ← now env
    ws' ← set_condition env ops r (resumed_at at') (resumed name at ws)
    update_status env (
        remove_condition condition_destroy_candidate
          (remove_condition condition_resume_requested ws'))
    return CtrlResult.done

  unfoldable pub reconcile_resume : Workspace → M Trace CtrlResult
  unfolding scale_stateful_set get_stateful_set mark_resumed
  reconcile_resume ws =
      let name = ws.status.workspace_id in
      elim (str_eq name "") [
        | true ↦ return CtrlResult.done
        | false ↦ do
          scale_stateful_set env ops r name 1
          read ← get_stateful_set env name
          elim read [
            | not_found e ↦ fail e
            | failed e ↦ fail e
            | found sts ↦ elim (ltb 0 sts.ready_replicas) [
              | false ↦ return (requeue_after idle_check_interval)
              | true ↦ mark_resumed name ws
            ]
          ]
      ]

  -- The time of the condition Suspended, if it is true.
  abbrev pub suspended_since : Workspace → Option (Option ℕ)
  suspended_since ws = elim (ops.find_status_condition ws.status.conditions condition_suspended) [
    | none ↦ none
    | some c ↦
        if same_status c.status ConditionStatus.condition_true
        then some c.last_transition_time
        else none
  ]

  unfoldable pub flag_candidate : Workspace → M Trace (Unit {0})
  unfolding set_condition update_status
  flag_candidate ws = do
    ws' ←
        set_condition env ops r
          (condition condition_destroy_candidate ConditionStatus.condition_true
            "RetentionPeriodExceeded"
            (Message.text "suspended for longer than the retention period"))
          ws
    update_status env ws'

  unfoldable pub check_retention : Workspace → M Trace (Unit {0})
  unfolding now flag_candidate
  check_retention ws = elim (suspended_since ws) [
    | none ↦ return tt
    | some since ↦ elim (is_true env ops r condition_destroy_candidate ws) [
      | true ↦ return tt
      | false ↦ now env >>= λ now'. elim (is_past now' since default_suspended_retention_period) [
        | false ↦ return tt
        | true ↦ flag_candidate ws
      ]
    ]
  ]

  -- While nothing asks for the workspace.
  unfoldable pub stay_suspended : Workspace → M Trace CtrlResult
  stay_suspended ws = do
    ws' ← check_node_available env ops r ws
    check_retention ws'
    return (requeue_after idle_check_interval)

  unfoldable pub reconcile_suspended : Workspace → M Trace CtrlResult
  reconcile_suspended ws = elim (is_true env ops r condition_resume_requested ws) [
    | true ↦ reconcile_resume ws
    | false ↦ stay_suspended ws
  ]

  -- The entry as `deactivateBlackboard` leaves it, or `none` where it changes nothing.
  abbrev pub inactive_at : ℕ → BlackboardEntry → BlackboardEntry
  inactive_at at entry = record entry { active = false; updated_at = some at }

  abbrev pub with_blackboard : BlackboardEntry → Workspace → Workspace
  with_blackboard entry ws = record ws { status = record ws.status { blackboard = some entry } }

  unfoldable pub deactivate_blackboard : Workspace → M Trace (Workspace × Bool)
  unfolding now
  deactivate_blackboard ws = elim ws.status.blackboard [
    | none ↦ return (ws, false)
    | some entry ↦ elim entry.active [
      | false ↦ return (ws, false)
      | true ↦ now env >>= λ at. return (with_blackboard (inactive_at at entry) ws, true)
    ]
  ]

  abbrev pub update_if : Bool → Workspace → M Trace (Unit {0})
  update_if true ws = update_status env ws
  update_if false ws = return tt

  -- From the confirmed evacuation on.
  unfoldable pub delete_storage : Workspace → String → M Trace CtrlResult
  unfolding evacuation_complete delete_pvc remove_evacuation_finalizer
  delete_storage ws name = do
    complete ← evacuation_complete env ops r ws
    elim complete [
      | false ↦ return (requeue_after evacuation_poll_interval)
      | true ↦ do
        delete_pvc env name
        remove_evacuation_finalizer env ops r ws
        return CtrlResult.done
    ]

  unfoldable pub remove_compute : String → Workspace × Bool → M Trace CtrlResult
  unfolding delete_stateful_set release_database delete_storage
  remove_compute name (ws, false) = return (requeue_after evacuation_poll_interval)
  remove_compute name (ws, true) =
      delete_stateful_set env name >> release_database env name >> delete_storage ws name

  unfoldable pub tear_down : Workspace → String → M Trace CtrlResult
  tear_down ws name = evacuate_before_stop env ops r ws name >>= remove_compute name

  unfoldable pub reconcile_terminating : Workspace → M Trace CtrlResult
  reconcile_terminating ws = do
    (ws', changed) ← deactivate_blackboard ws
    update_if changed ws'
    elim (str_eq ws'.status.workspace_id ""
        || is_true env ops r condition_duplicate_of_existing ws') [
          | true ↦ remove_evacuation_finalizer env ops r ws' >> return CtrlResult.done
          | false ↦ do
            let ws'' = with_phase WorkspacePhase.terminating ws'
            update_if (not (is_terminating ws'.status.phase)) ws''
            tear_down ws'' ws'.status.workspace_id
        ]
