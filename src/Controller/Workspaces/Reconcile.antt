-- ===== src/Controller/Workspaces/Reconcile.antt =====
-- workspace_controller.go: `Reconcile`, one pass over a workspace.
pub mod Settled
use parallel_workspace_serve.Prelude.{String, Bool, true, false, List, [], ◌∷◌, ◌++◌, str_eq, any}
use parallel_workspace_serve.Prelude.Outcome.{M, ok, err, return, fail, ◌>>=◌, ◌>>◌}
use parallel_workspace_serve.Controller.Types.{Workspace, WorkspacePhase, CtrlResult}
use parallel_workspace_serve.Controller.Conditions.{ConditionOps}
use parallel_workspace_serve.Controller.Api.{Read, found, not_found, failed}
use parallel_workspace_serve.Controller.Workspaces.Cluster.{Call, Trace, Cluster, Setup}
use parallel_workspace_serve.Controller.Workspaces.Calls.{update_workspace}
use parallel_workspace_serve.Controller.Workspaces.Evacuation.{evacuation_finalizer}
use parallel_workspace_serve.Controller.Workspaces.Passes.{
  reconcile_suspended, reconcile_terminating,
}
use parallel_workspace_serve.Controller.Workspaces.Ready.{reconcile_ready}
use parallel_workspace_serve.Controller.Workspaces.Provisioning.{Platform, reconcile_provisioning}

-- controllerutil.AddFinalizer.
abbrev pub add_finalizer : Workspace → Workspace
add_finalizer ws = record ws { finalizers = ws.finalizers ++ (evacuation_finalizer ∷ []) }

abbrev pub has_finalizer : Workspace → Bool
has_finalizer ws = any (str_eq evacuation_finalizer) ws.finalizers

module _ (env : Cluster) (ops : ConditionOps) (r : Setup) (p : Platform) where
  abbrev pub get_workspace : String → M Trace (Read Workspace)
  get_workspace name t = ok (env.get_workspace t name) (Call.get_workspace name ∷ t)

  unfoldable pub reconcile_failed : Workspace → M Trace CtrlResult
  reconcile_failed ws = return CtrlResult.done

  unfoldable pub reconcile_phase : Workspace → M Trace CtrlResult
  reconcile_phase ws = elim ws.status.phase [
    | WorkspacePhase.ready ↦ reconcile_ready env ops r ws
    | WorkspacePhase.suspended ↦ reconcile_suspended env ops r ws
    | WorkspacePhase.failed ↦ reconcile_failed ws
    | _ ↦ reconcile_provisioning env ops r p ws
  ]

  unfoldable pub register_finalizer : Workspace → M Trace Workspace
  register_finalizer ws = elim (has_finalizer ws) [
    | true ↦ return ws
    | false ↦ update_workspace env (add_finalizer ws) >> return (add_finalizer ws)
  ]

  unfoldable pub reconcile_live : Workspace → M Trace CtrlResult
  reconcile_live ws = register_finalizer ws >>= reconcile_phase

  unfoldable pub reconcile_read : Workspace → M Trace CtrlResult
  reconcile_read ws = elim ws.deleting [
    | true ↦ reconcile_terminating env ops r ws
    | false ↦ reconcile_live ws
  ]

  unfoldable pub reconcile : String → M Trace CtrlResult
  reconcile name = get_workspace name >>= λ read. elim read [
    | not_found e ↦ return CtrlResult.done
    | failed e ↦ fail e
    | found ws ↦ reconcile_read ws
  ]
