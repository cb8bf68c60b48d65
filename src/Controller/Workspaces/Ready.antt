-- ===== src/Controller/Workspaces/Ready.antt =====
-- lifecycle.go: `reconcileReady`, a whole pass over a workspace that is Ready.
use parallel_workspace_serve.Prelude.{Bool, true, false, arith, is_blank}
use parallel_workspace_serve.Prelude.Outcome.{M, final, return, ◌>>=◌, ◌>>◌}
use parallel_workspace_serve.Controller.Types.{Workspace, CtrlResult}
use parallel_workspace_serve.Controller.Conditions.{ConditionOps}
use parallel_workspace_serve.Controller.Workspaces.Cluster.{Trace, Cluster, Setup}
use parallel_workspace_serve.Controller.Workspaces.Calls.{
  now, update_status, list_workspaces, notify,
}
use parallel_workspace_serve.Controller.Workspaces.Blackboard.{
  current_files, sync_blackboard, active_blackboard_entries,
}
use parallel_workspace_serve.Controller.Workspaces.Documents.{write_document, reconcile_claude_md}
use parallel_workspace_serve.Controller.Workspaces.Evacuation.{set_condition}
use parallel_workspace_serve.Controller.Workspaces.Lifecycle.{
  check_node_available, node_available, node_lost, node_returned,
}
use parallel_workspace_serve.Controller.Workspaces.Conflicts.{
  clear_conflict, tell_conflict, report_conflicts, reconcile_file_conflicts,
}
use parallel_workspace_serve.Controller.Workspaces.Passes.{update_if, suspend_if_idle}
use parallel_workspace_serve.Controller.Workspaces.Captures.{Safe}
use parallel_workspace_serve.Controller.Workspaces.Safe.{suspend_if_idle-Safe}

module _ (env : Cluster) (ops : ConditionOps) (r : Setup) where
  -- The document, where the workspace has a name for it.
  unfoldable pub refresh_document : Workspace → M Trace (Unit {0})
  refresh_document ws = elim (is_blank ws.status.workspace_id) [
    | true ↦ return tt
    | false ↦ reconcile_claude_md env r ws ws.status.workspace_id
  ]

  -- After the entry was brought up to date.
  unfoldable pub refresh_rest : Workspace × Bool → M Trace CtrlResult
  refresh_rest (ws, changed) = do
    update_if env ops r changed ws
    refresh_document ws
    ws' ← reconcile_file_conflicts env ops r ws
    suspend_if_idle env ops r ws'

  unfoldable pub reconcile_ready : Workspace → M Trace CtrlResult
  reconcile_ready ws = do
    ws' ← check_node_available env ops r ws
    entry ← sync_blackboard env r ws'
    refresh_rest entry

  pub check_node_available-Safe :
      (ws : Workspace) (t : Trace)
      → Safe env t
      → Safe env (final (check_node_available env ops r ws t))
  unfolding check_node_available node_available node_lost node_returned set_condition now
      update_status notify
  check_node_available-Safe ws t s = ground arith

  sync_blackboard-Safe :
      (ws : Workspace) (t : Trace) → Safe env t → Safe env (final (sync_blackboard env r ws t))
  unfolding sync_blackboard current_files now
  sync_blackboard-Safe ws t s = ground arith

  active_entries-Safe :
      (t : Trace) → Safe env t → Safe env (final (active_blackboard_entries env r t))
  unfolding active_blackboard_entries list_workspaces
  active_entries-Safe t s = ground arith

  refresh_document-Safe :
      (ws : Workspace) (t : Trace) → Safe env t → Safe env (final (refresh_document ws t))
  unfolding refresh_document reconcile_claude_md write_document
  refresh_document-Safe ws t s = grind (arith, active_entries-Safe)

  clear_conflict-Safe :
      (ws : Workspace) (t : Trace) → Safe env t → Safe env (final (clear_conflict env ops r ws t))
  unfolding clear_conflict set_condition now update_status
  clear_conflict-Safe ws t s = ground arith

  reconcile_file_conflicts-Safe :
      (ws : Workspace) (t : Trace)
      → Safe env t
      → Safe env (final (reconcile_file_conflicts env ops r ws t))
  unfolding reconcile_file_conflicts report_conflicts tell_conflict set_condition now update_status
      notify
  reconcile_file_conflicts-Safe ws t s = grind (arith, active_entries-Safe, clear_conflict-Safe)

  refresh_rest-Safe :
      (entry : Workspace × Bool) (t : Trace) → Safe env t → Safe env (final (refresh_rest entry t))
  unfolding refresh_rest update_status
  refresh_rest-Safe entry t s =
      grind (arith, refresh_document-Safe, reconcile_file_conflicts-Safe, suspend_if_idle-Safe)

  -- If so far every stop followed a capture and every delete of a working directory all that has to
  -- come before it, then so after a pass over a workspace that is Ready.
  pub reconcile_ready-Safe :
      (ws : Workspace) (t : Trace) → Safe env t → Safe env (final (reconcile_ready ws t))
  unfolding reconcile_ready
  reconcile_ready-Safe ws t s =
      grind (arith, check_node_available-Safe, sync_blackboard-Safe, refresh_rest-Safe)
