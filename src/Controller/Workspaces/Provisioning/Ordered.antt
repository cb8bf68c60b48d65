-- ===== src/Controller/Workspaces/Provisioning/Ordered.antt =====
-- workspace_controller.go: the order in which a workspace is created, and who gets a credential.
use parallel_workspace_serve.Prelude.{
  ℕ, String, Bool, true, false, List, [], ◌∷◌, some, eq_refl, ◌≡◌, arith,
}
use parallel_workspace_serve.Prelude.Outcome.{ok, final}
use parallel_workspace_serve.Controller.Types.{Workspace, WorkspaceUrls, Message}
use parallel_workspace_serve.Controller.Templates.{WorkspaceTemplate}
use parallel_workspace_serve.Controller.Conditions.{ConditionOps}
use parallel_workspace_serve.Controller.Workspaces.Resources.{
  PersistentVolumeClaim, StatefulSetObject, build_pvc, build_stateful_set, stateful_set_of,
}
use parallel_workspace_serve.Controller.Workspaces.Cluster.{Call, Trace, Cluster, Setup}
use parallel_workspace_serve.Controller.Workspaces.Calls.{
  now, update_status, list_workspaces, get_stateful_set,
}
use parallel_workspace_serve.Controller.Workspaces.Evacuation.{set_condition}
use parallel_workspace_serve.Controller.Workspaces.Rollback.{
  is_ready, remove_substrate, mark_failed, fail_and_rollback, requeue_or_fail,
}
use parallel_workspace_serve.Controller.Workspaces.Credentials.{
  verify_user_provided_git_credential, issue_missing, issue_git_credential, obtain_credential,
  reconcile_git_credential,
}
use parallel_workspace_serve.Controller.Workspaces.Admission.{
  image_staged_on_node, quota_room, resource_quota_has_room, add_size, add_declared, declared_total,
  disk_room, node_disk_budget_has_room, disk_verdict, quota_verdict, admission_blocked, hold, grant,
  reconcile_admission,
}
use parallel_workspace_serve.Controller.Workspaces.Provisioning.{
  Platform, published, reconcile_ingress, mark_ready, publish, connect, await_replica,
  start_compute, share_document, create_storage, create_database, reconcile_database, record_name,
  resolve_resource_name, provision_named, provision, provision_own,
}
use parallel_workspace_serve.Controller.Workspaces.Provisioning.Steps.{
  stored, running, routed, Ordered, is_step, keep_Ordered, keep_stored, keep_running, keep_routed,
  document-keeps, sync-keeps,
}

module _ (env : Cluster) (ops : ConditionOps) (r : Setup) (p : Platform) where
  substrate-Ordered :
      (name : String) (t : Trace)
      → Ordered env r p t
      → Ordered env r p (final (remove_substrate env ops r name t))
  unfolding remove_substrate
  substrate-Ordered name t s = grind (arith, keep_Ordered)

  rollback-Ordered :
      (ws : Workspace) (name reason : String) (message : Message) (t : Trace)
      → Ordered env r p t
      → Ordered env r p (final (fail_and_rollback env ops r ws name reason message t))
  unfolding fail_and_rollback mark_failed set_condition now update_status
  rollback-Ordered ws name reason message t s = grind (arith, keep_Ordered, substrate-Ordered)

  requeue-Ordered :
      (ws : Workspace) (name reason message : String) (t : Trace)
      → Ordered env r p t
      → Ordered env r p (final (requeue_or_fail env ops r ws name reason message t))
  unfolding requeue_or_fail now
  requeue-Ordered ws name reason message t s = grind (arith, keep_Ordered, rollback-Ordered)

  -- In order so far, and the workspace runs; and it has its entry points.
  abbrev Stored : String → Trace → Type 0
  Stored id t = (Ordered env r p t) × (stored env id t ≡ true)

  abbrev Running : String → Trace → Type 0
  Running id t = (Ordered env r p t) × (running env id t ≡ true)

  abbrev Routed : String → Trace → Type 0
  Routed id t = (Ordered env r p t) × (running env id t ≡ true) × (routed env id t ≡ true)

  keep_Stored :
      (id : String) (c : Call) (t : Trace)
      → Stored id t
      → is_step env r p c ≡ false
      → Stored id (c ∷ t)
  keep_Stored id c t (s, a) h = (keep_Ordered env r p c t s h, keep_stored env r p id c t a)

  keep_Routed :
      (id : String) (c : Call) (t : Trace)
      → Routed id t
      → is_step env r p c ≡ false
      → Routed id (c ∷ t)
  keep_Routed id c t (s, a, b) h =
      (keep_Ordered env r p c t s h, keep_running env r p id c t a, keep_routed env r p id c t b)

  publish-Ordered :
      (ws : Workspace) (name : String) (urls : WorkspaceUrls) (t : Trace)
      → Routed name t
      → Ordered env r p (final (publish env ops r p ws name urls t))
  unfolding publish mark_ready set_condition now update_status published
  publish-Ordered ws name urls t s =
      let synced = sync-keeps env ops r p (Routed name) (keep_Routed name) ws t s in
      let shared = document-keeps env ops r p (Ordered env r p) (keep_Ordered env r p) in
      grind (arith, synced, shared)

  credential-Routed :
      (ws : Workspace) (name : String) (t : Trace)
      → Routed name t
      → Routed name (final (reconcile_git_credential p.to_lower p.equal_fold env r ws name t))
  unfolding reconcile_git_credential obtain_credential verify_user_provided_git_credential
      issue_git_credential issue_missing
  credential-Routed ws name t s = grind arith

  connect-Ordered :
      (ws : Workspace) (name : String) (t : Trace)
      → Running name t
      → Ordered env r p (final (connect env ops r p ws name t))
  unfolding connect reconcile_ingress
  connect-Ordered ws name t s =
      grind (arith, eq_refl, credential-Routed, publish-Ordered, requeue-Ordered)

  await-Ordered :
      (ws : Workspace) (name : String) (t : Trace)
      → Ordered env r p t
      → Ordered env r p (final (await_replica env ops r p ws name t))
  unfolding await_replica get_stateful_set
  await-Ordered ws name t s = grind (arith, eq_refl, connect-Ordered, requeue-Ordered)

  pvc_name :
      (ws : Workspace) (tmpl : WorkspaceTemplate) (name : String) (pvc : PersistentVolumeClaim)
      → build_pvc p.parse_quantity ws tmpl name ≡ some pvc
      → pvc.name ≡ name
  unfolding build_pvc
  pvc_name ws tmpl name pvc e = ground arith

  stateful_set_name :
      (ws : Workspace) (tmpl : WorkspaceTemplate) (name : String) (sts : StatefulSetObject)
      → build_stateful_set p.parse_quantity p.init_script r.namespace ws tmpl name ≡ some sts
      → sts.name ≡ name
  unfolding build_stateful_set stateful_set_of
  stateful_set_name ws tmpl name sts e = ground arith

  start-Ordered :
      (ws : Workspace) (tmpl : WorkspaceTemplate) (name : String) (t : Trace)
      → Stored name t
      → Ordered env r p (final (start_compute env ops r p ws tmpl name t))
  unfolding start_compute
  start-Ordered ws tmpl name t s =
      grind
        (arith, stateful_set_name ws tmpl name, await-Ordered, requeue-Ordered, rollback-Ordered)

  share-Ordered :
      (ws : Workspace) (tmpl : WorkspaceTemplate) (name : String) (t : Trace)
      → Stored name t
      → Ordered env r p (final (share_document env ops r p ws tmpl name t))
  unfolding share_document
  share-Ordered ws tmpl name t s =
      let shared = document-keeps env ops r p (Stored name) (keep_Stored name) ws name t s in
      grind (arith, shared, start-Ordered, requeue-Ordered)

  storage-Ordered :
      (ws : Workspace) (tmpl : WorkspaceTemplate) (name : String) (t : Trace)
      → Ordered env r p t
      → Ordered env r p (final (create_storage env ops r p ws tmpl name t))
  unfolding create_storage
  storage-Ordered ws tmpl name t s =
      grind
        (arith, eq_refl, pvc_name ws tmpl name, share-Ordered, requeue-Ordered, rollback-Ordered)

  database-Ordered :
      (ws : Workspace) (tmpl : WorkspaceTemplate) (name : String) (t : Trace)
      → Ordered env r p t
      → Ordered env r p (final (create_database env ops r p ws tmpl name t))
  unfolding create_database reconcile_database
  database-Ordered ws tmpl name t s = grind (arith, storage-Ordered, requeue-Ordered)

  record_name-Ordered :
      (ws : Workspace) (tmpl : WorkspaceTemplate) (name : String) (t : Trace)
      → is_ready ws.status.phase ≡ false
      → Ordered env r p t
      → Ordered env r p (final (record_name env ops r p ws tmpl name t))
  unfolding record_name update_status
  record_name-Ordered ws tmpl name t u s = grind (arith, database-Ordered)

  named-Ordered :
      (ws : Workspace) (tmpl : WorkspaceTemplate) (t : Trace)
      → is_ready ws.status.phase ≡ false
      → Ordered env r p t
      → Ordered env r p (final (provision_named env ops r p ws tmpl t))
  unfolding provision_named resolve_resource_name list_workspaces
  named-Ordered ws tmpl t u s = grind (arith, record_name-Ordered, rollback-Ordered)

  add_declared-Ordered :
      (ws other : Workspace) (node : String) (total : ℕ) (t : Trace)
      → Ordered env r p t
      → Ordered env r p
          (final (add_declared env ops r p.parse_quantity p.one_pod ws node other total t))
  unfolding add_declared add_size
  add_declared-Ordered ws other node total t s = ground arith

  declared-Ordered :
      (ws : Workspace) (node : String) (items : List Workspace) (total : ℕ) (t : Trace)
      → Ordered env r p t
      → Ordered env r p
          (final (declared_total env ops r p.parse_quantity p.one_pod ws node items total t))
  unfolding declared_total
  declared-Ordered ws node [] total t s = s
  declared-Ordered ws node (other ∷ items) total t s =
      grind (arith, add_declared-Ordered, declared-Ordered ws node items)

  disk-Ordered :
      (ws : Workspace) (tmpl : WorkspaceTemplate) (t : Trace)
      → Ordered env r p t
      → Ordered env r p (final (disk_verdict env ops r p.parse_quantity p.one_pod ws tmpl t))
  unfolding disk_verdict node_disk_budget_has_room disk_room list_workspaces
  disk-Ordered ws tmpl t s = grind (arith, declared-Ordered)

  blocked-Ordered :
      (ws : Workspace) (tmpl : WorkspaceTemplate) (t : Trace)
      → Ordered env r p t
      → Ordered env r p (final (admission_blocked env ops r p.parse_quantity p.one_pod ws tmpl t))
  unfolding admission_blocked image_staged_on_node quota_verdict resource_quota_has_room quota_room
  blocked-Ordered ws tmpl t s = grind (arith, disk-Ordered)

  admission-Ordered :
      (ws : Workspace) (tmpl : WorkspaceTemplate) (t : Trace)
      → is_ready ws.status.phase ≡ false
      → Ordered env r p t
      → Ordered env r p (final (reconcile_admission env ops r p.parse_quantity p.one_pod ws tmpl t))
  unfolding reconcile_admission hold grant set_condition now update_status
  admission-Ordered ws tmpl t u s = grind (arith, blocked-Ordered)

  admission-phase :
      (ws : Workspace) (left : Workspace × Bool) (tmpl : WorkspaceTemplate) (t t' : Trace)
      → reconcile_admission env ops r p.parse_quantity p.one_pod ws tmpl t ≡ ok left t'
      → left.0.status.phase ≡ ws.status.phase
  unfolding reconcile_admission hold grant set_condition now update_status
  admission-phase ws left tmpl t t' e = grind arith

  provision-Ordered :
      (ws : Workspace) (tmpl : WorkspaceTemplate) (t : Trace)
      → is_ready ws.status.phase ≡ false
      → Ordered env r p t
      → Ordered env r p (final (provision env ops r p ws tmpl t))
  unfolding provision
  provision-Ordered ws tmpl t u s = grind (arith, admission-Ordered, admission-phase, named-Ordered)

  -- If so far compute was created only on a stored working directory, entry points were made only
  -- for a workspace seen to run, credentials were issued only to a workspace with entry points and
  -- for an unprotected repository and branch, and Ready was published only for a workspace that runs
  -- and has entry points, then so after a pass that provisions a workspace that is not Ready.
  pub provision_own-Ordered :
      (ws : Workspace) (t : Trace)
      → is_ready ws.status.phase ≡ false
      → Ordered env r p t
      → Ordered env r p (final (provision_own env ops r p ws t))
  unfolding provision_own
  provision_own-Ordered ws t u s = grind (arith, provision-Ordered, requeue-Ordered)
