-- ===== src/Controller/Workspaces/Rollback.antt =====
-- workspace_controller.go: mirroring the owner of a branch, and giving up a provisioning.
pub mod Clean
use Prim.Native.String
use parallel_workspace_serve.Prelude.{
  ℕ, ◌-◌, String, Bool, true, false, List, ◌∷◌, str_eq, if◌then◌else◌, ltb,
}
use parallel_workspace_serve.Prelude.Outcome.{M, ok, err, return, fail, ◌>>=◌, ◌>>◌}
use parallel_workspace_serve.Controller.Types.{
  Workspace, WorkspaceStatus, WorkspacePhase, Condition, ConditionStatus, Message, CtrlResult, done,
  requeue_after,
}
use parallel_workspace_serve.Controller.Conditions.{ConditionOps}
use parallel_workspace_serve.Controller.Workspaces.Resources.{claude_md_config_map_name}
use parallel_workspace_serve.Controller.Workspaces.Cluster.{Call, Trace, Cluster, Setup}
use parallel_workspace_serve.Controller.Workspaces.Calls.{
  now, timeout, poll_interval, update_status, delete_stateful_set, delete_pvc, release_database,
  written, gone,
}
use parallel_workspace_serve.Controller.Workspaces.Evacuation.{condition, set_condition}
use parallel_workspace_serve.Controller.Workspaces.Lifecycle.{
  condition_duplicate_of_existing, with_phase,
}

abbrev pub condition_provisioned : String
condition_provisioned = "Provisioned"

abbrev pub is_unset : WorkspacePhase → Bool
is_unset WorkspacePhase.unset = true
is_unset _ = false

abbrev pub is_ready : WorkspacePhase → Bool
is_ready WorkspacePhase.ready = true
is_ready _ = false

abbrev pub mirrored_phase : WorkspacePhase → WorkspacePhase
mirrored_phase phase = if is_unset phase then WorkspacePhase.provisioning else phase

abbrev pub mirror : Workspace → Workspace → Workspace
mirror ws canonical = record ws {
  status = record ws.status {
    phase = mirrored_phase canonical.status.phase;
    workspace_id = canonical.status.workspace_id;
    urls = canonical.status.urls;
    session_id = canonical.status.session_id;
  };
}

module _ (env : Cluster) (ops : ConditionOps) (r : Setup) where
  abbrev pub remove_routing : String → M Trace (Unit {0})
  remove_routing name t = written (env.remove_routing t name) (Call.remove_routing name ∷ t)

  abbrev pub delete_config_map : String → M Trace (Unit {0})
  delete_config_map name t = gone (env.delete_config_map t name) (Call.delete_config_map name ∷ t)

  abbrev pub delete_secret : String → M Trace (Unit {0})
  delete_secret name t = gone (env.delete_secret t name) (Call.delete_secret name ∷ t)

  -- The workspace as it was left, and the result.
  unfoldable pub mirror_canonical : Workspace → Workspace → M Trace (Workspace × CtrlResult)
  unfolding set_condition update_status
  mirror_canonical ws canonical = do
    ws' ←
        set_condition env ops r
          (condition condition_duplicate_of_existing ConditionStatus.condition_true
            "BranchAlreadyProvisioned"
            (Message.already_provisioned ws.spec.repository ws.spec.branch canonical.name))
          (mirror ws canonical)
    update_status env ws'
    return (
      ws',
      (if is_ready canonical.status.phase
          then CtrlResult.done
          else requeue_after (poll_interval r)),
    )

  -- The deletes of a rollback.
  unfoldable pub remove_substrate : String → M Trace (Unit {0})
  unfolding delete_stateful_set delete_pvc release_database
  remove_substrate name = do
    delete_stateful_set env name
    delete_pvc env name
    release_database env name
    remove_routing name
    delete_config_map (claude_md_config_map_name name)
    delete_secret name

  unfoldable pub mark_failed : Workspace → String → Message → M Trace CtrlResult
  unfolding set_condition update_status
  mark_failed ws reason message = do
    ws' ←
        set_condition env ops r
          (condition condition_provisioned ConditionStatus.condition_false reason message)
          (with_phase WorkspacePhase.failed ws)
    update_status env ws'
    return CtrlResult.done

  unfoldable pub fail_and_rollback : Workspace → String → String → Message → M Trace CtrlResult
  fail_and_rollback ws name reason message = elim (str_eq name "") [
    | true ↦ mark_failed ws reason message
    | false ↦ remove_substrate name >> mark_failed ws reason message
  ]

  unfoldable pub requeue_or_fail : Workspace → String → String → String → M Trace CtrlResult
  unfolding now
  requeue_or_fail ws name reason message = do
    now' ← now env
    elim (ltb (now' - ws.creation_timestamp) (timeout r)) [
      | true ↦ return (requeue_after (poll_interval r))
      | false ↦
          fail_and_rollback ws name "ProvisioningTimeout"
            (Message.provisioning_timeout reason message)
    ]
