-- ===== src/Controller/Workspaces/Reconcile/Settled.antt =====
-- workspace_controller.go: a pass over a workspace that was provisioned loses no work.
use parallel_workspace_serve.Prelude.{Bool, true, false, ◌||◌, ◌≡◌, arith}
use parallel_workspace_serve.Prelude.Outcome.{final}
use parallel_workspace_serve.Controller.Types.{Workspace, WorkspacePhase}
use parallel_workspace_serve.Controller.Conditions.{ConditionOps}
use parallel_workspace_serve.Controller.Workspaces.Cluster.{Trace, Cluster, Setup}
use parallel_workspace_serve.Controller.Workspaces.Calls.{
  now, update_status, update_workspace, get_stateful_set,
}
use parallel_workspace_serve.Controller.Workspaces.Evacuation.{set_condition}
use parallel_workspace_serve.Controller.Workspaces.Lifecycle.{scale_stateful_set}
use parallel_workspace_serve.Controller.Workspaces.Passes.{
  mark_resumed, reconcile_resume, flag_candidate, check_retention, stay_suspended,
  reconcile_suspended,
}
use parallel_workspace_serve.Controller.Workspaces.Captures.{Safe}
use parallel_workspace_serve.Controller.Workspaces.Safe.{reconcile_terminating-Safe}
use parallel_workspace_serve.Controller.Workspaces.Ready.{
  check_node_available-Safe, reconcile_ready-Safe,
}
use parallel_workspace_serve.Controller.Workspaces.Provisioning.{Platform}
use parallel_workspace_serve.Controller.Workspaces.Reconcile.{
  reconcile_failed, reconcile_phase, register_finalizer, reconcile_live, reconcile_read,
}

-- The phases after the provisioning.
abbrev pub is_settled : WorkspacePhase → Bool
is_settled WorkspacePhase.ready = true
is_settled WorkspacePhase.suspended = true
is_settled WorkspacePhase.failed = true
is_settled _ = false

module _ (env : Cluster) (ops : ConditionOps) (r : Setup) (p : Platform) where
  resume-Safe :
      (ws : Workspace) (t : Trace) → Safe env t → Safe env (final (reconcile_resume env ops r ws t))
  unfolding reconcile_resume scale_stateful_set get_stateful_set mark_resumed set_condition now
      update_status
  resume-Safe ws t s = ground arith

  retention-Safe :
      (ws : Workspace) (t : Trace) → Safe env t → Safe env (final (check_retention env ops r ws t))
  unfolding check_retention flag_candidate set_condition now update_status
  retention-Safe ws t s = ground arith

  stay-Safe :
      (ws : Workspace) (t : Trace) → Safe env t → Safe env (final (stay_suspended env ops r ws t))
  unfolding stay_suspended
  stay-Safe ws t s = grind (arith, retention-Safe, check_node_available-Safe)

  suspended-Safe :
      (ws : Workspace) (t : Trace)
      → Safe env t
      → Safe env (final (reconcile_suspended env ops r ws t))
  unfolding reconcile_suspended
  suspended-Safe ws t s = ground (arith, resume-Safe ws t s, stay-Safe ws t s)

  phase-Safe :
      (ws : Workspace) (t : Trace)
      → is_settled ws.status.phase ≡ true
      → Safe env t
      → Safe env (final (reconcile_phase env ops r p ws t))
  unfolding reconcile_phase reconcile_failed
  phase-Safe ws t h s = grind (arith, suspended-Safe, reconcile_ready-Safe)

  live-Safe :
      (ws : Workspace) (t : Trace)
      → is_settled ws.status.phase ≡ true
      → Safe env t
      → Safe env (final (reconcile_live env ops r p ws t))
  unfolding reconcile_live register_finalizer update_workspace
  live-Safe ws t h s = grind (arith, phase-Safe)

  -- If so far every stop followed a capture and every delete of a working directory all that has to
  -- come before it, then so after a whole pass over a workspace that was read as being deleted, or
  -- in the phase Ready, Suspended or Failed.
  pub reconcile_read-Safe :
      (ws : Workspace) (t : Trace)
      → (ws.deleting || is_settled ws.status.phase) ≡ true
      → Safe env t
      → Safe env (final (reconcile_read env ops r p ws t))
  unfolding reconcile_read
  reconcile_read-Safe ws t h s = grind (arith, live-Safe, reconcile_terminating-Safe)
