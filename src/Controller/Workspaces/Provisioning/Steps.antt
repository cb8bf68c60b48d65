-- ===== src/Controller/Workspaces/Provisioning/Steps.antt =====
-- workspace_controller.go: what has to come first when a workspace is created, and who may get a
-- credential.
use parallel_workspace_serve.Prelude.{
  String, Bool, true, false, [], ◌∷◌, ◌&&◌, ◌||◌, not, ltb, str_eq, ◌≡◌, arith, trim_space,
}
use parallel_workspace_serve.Prelude.Outcome.{final}
use parallel_workspace_serve.Controller.Types.{Workspace}
use parallel_workspace_serve.Controller.Conditions.{ConditionOps}
use parallel_workspace_serve.Controller.Api.{Read, found, not_found, failed}
use parallel_workspace_serve.Controller.Workspaces.Cluster.{
  StatefulSet, Created, created, already_exists, create_failed, Call, Trace, Cluster, Setup,
}
use parallel_workspace_serve.Controller.Workspaces.Calls.{now, list_workspaces}
use parallel_workspace_serve.Controller.Workspaces.Blackboard.{
  current_files, sync_blackboard, active_blackboard_entries,
}
use parallel_workspace_serve.Controller.Workspaces.Documents.{write_document, reconcile_claude_md}
use parallel_workspace_serve.Controller.Workspaces.Rollback.{is_ready}
use parallel_workspace_serve.Controller.Workspaces.Credentials.{
  protects_repository, protects_branch,
}
use parallel_workspace_serve.Controller.Workspaces.Captures.{is_done}
use parallel_workspace_serve.Controller.Workspaces.Provisioning.{Platform}

abbrev pub is_made : Created → Bool
is_made created = true
is_made already_exists = true
is_made (create_failed e) = false

abbrev pub has_replica : Read StatefulSet → Bool
has_replica (found sts) = ltb 0 sts.ready_replicas
has_replica (not_found e) = false
has_replica (failed e) = false

module _ (env : Cluster) where
  -- The working directory was created, or was there.
  abbrev pub stored : String → Trace → Bool
  stored id [] = false
  stored id (Call.create_pvc pvc ∷ t) =
      (str_eq pvc.name id && is_made (env.create_pvc t pvc)) || stored id t
  stored id (_ ∷ t) = stored id t

  -- A replica was seen ready.
  abbrev pub running : String → Trace → Bool
  running id [] = false
  running id (Call.get_stateful_set name ∷ t) =
      (str_eq name id && has_replica (env.get_stateful_set t name)) || running id t
  running id (_ ∷ t) = running id t

  -- The entry points were made.
  abbrev pub routed : String → Trace → Bool
  routed id [] = false
  routed id (Call.ensure_routing name preview report ∷ t) =
      (str_eq name id && is_done (env.ensure_routing t name preview report)) || routed id t
  routed id (_ ∷ t) = routed id t

module _ (env : Cluster) (r : Setup) (p : Platform) where
  -- What the guard lets pass.
  abbrev pub is_allowed : String → String → Bool
  is_allowed repository branch =
      not (protects_repository p.to_lower p.equal_fold r repository)
      && not (protects_branch p.to_lower p.equal_fold r (trim_space branch))

  -- Compute is created only on a working directory, an entry point is made only for a workspace that
  -- runs, a credential is issued only to one that has entry points and for a repository and a branch
  -- that nobody protects, and only a workspace that runs and has entry points is published as Ready.
  abbrev pub is_ordered : Trace → Bool
  is_ordered [] = true
  is_ordered (Call.create_stateful_set sts ∷ t) = stored env sts.name t && is_ordered t
  is_ordered (Call.ensure_routing name preview report ∷ t) = running env name t && is_ordered t
  is_ordered (Call.issue_credential name repository branch ∷ t) =
      routed env name t && is_allowed repository branch && is_ordered t
  is_ordered (Call.update_status ws ∷ t) =
      (not (is_ready ws.status.phase)
        || (running env ws.status.workspace_id t && routed env ws.status.workspace_id t))
      && is_ordered t
  is_ordered (_ ∷ t) = is_ordered t

  abbrev pub Ordered : Trace → Type 0
  Ordered t = is_ordered t ≡ true

  -- The calls that `Ordered` is about.
  abbrev pub is_step : Call → Bool
  is_step (Call.create_stateful_set sts) = true
  is_step (Call.ensure_routing name preview report) = true
  is_step (Call.issue_credential name repository branch) = true
  is_step (Call.update_status ws) = true
  is_step _ = false

  pub keep_Ordered : (c : Call) (t : Trace) → Ordered t → is_step c ≡ false → Ordered (c ∷ t)
  keep_Ordered (Call.create_stateful_set sts) t s h = ground arith
  keep_Ordered (Call.ensure_routing name preview report) t s h = ground arith
  keep_Ordered (Call.issue_credential name repository branch) t s h = ground arith
  keep_Ordered (Call.update_status ws) t s h = ground arith
  keep_Ordered _ t s h = s

  pub keep_stored :
      (id : String) (c : Call) (t : Trace) → stored env id t ≡ true → stored env id (c ∷ t) ≡ true
  keep_stored id (Call.create_pvc pvc) t s = ground arith
  keep_stored id _ t s = s

  pub keep_running :
      (id : String) (c : Call) (t : Trace) → running env id t ≡ true → running env id (c ∷ t) ≡ true
  keep_running id (Call.get_stateful_set name) t s = ground arith
  keep_running id _ t s = s

  pub keep_routed :
      (id : String) (c : Call) (t : Trace) → routed env id t ≡ true → routed env id (c ∷ t) ≡ true
  keep_routed id (Call.ensure_routing name preview report) t s = ground arith
  keep_routed id _ t s = s

module _ (env : Cluster) (ops : ConditionOps) (r : Setup) (p : Platform) (P : Trace → Type 0)
    (keep : (c : Call) (t : Trace) → P t → is_step env r p c ≡ false → P (c ∷ t)) where
  pub entries-keeps : (t : Trace) → P t → P (final (active_blackboard_entries env r t))
  unfolding active_blackboard_entries list_workspaces
  entries-keeps t h = grind (arith, keep)

  pub document-keeps :
      (ws : Workspace) (name : String) (t : Trace)
      → P t
      → P (final (reconcile_claude_md env r ws name t))
  unfolding reconcile_claude_md write_document
  document-keeps ws name t h = grind (arith, keep, entries-keeps)

  pub sync-keeps : (ws : Workspace) (t : Trace) → P t → P (final (sync_blackboard env r ws t))
  unfolding sync_blackboard current_files now
  sync-keeps ws t h = grind (arith, keep)
