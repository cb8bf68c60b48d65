-- ===== src/Controller/Workspaces/Provisioning/Complete.antt =====
-- workspace_controller.go: a provisioning that nothing hinders ends with a workspace that is Ready.
use parallel_workspace_serve.Prelude.{
  ◌≤◌, String, Bool, true, false, List, ◌∷◌, none, some, ◌&&◌, str_eq, eq_refl, ◌≡◌, arith,
  is_blank, any,
}
use parallel_workspace_serve.Prelude.Outcome.{Outcome, ok, err}
use parallel_workspace_serve.Controller.Types.{Workspace, WorkspaceUrls, CtrlResult, requeue_after}
use parallel_workspace_serve.Controller.Templates.{WorkspaceTemplate}
use parallel_workspace_serve.Controller.Conditions.{ConditionOps}
use parallel_workspace_serve.Controller.Api.{found}
use parallel_workspace_serve.Controller.Workspaces.Resources.{
  PersistentVolumeClaim, StatefulSetObject, build_pvc, build_stateful_set,
}
use parallel_workspace_serve.Controller.Workspaces.Cluster.{
  StatefulSet, created, Call, Trace, Cluster, Setup,
}
use parallel_workspace_serve.Controller.Workspaces.Calls.{
  now, update_status, list_workspaces, get_stateful_set,
}
use parallel_workspace_serve.Controller.Workspaces.Evacuation.{set_condition}
use parallel_workspace_serve.Controller.Workspaces.Blackboard.{
  current_files, sync_blackboard, active_blackboard_entries,
}
use parallel_workspace_serve.Controller.Workspaces.Documents.{write_document, reconcile_claude_md}
use parallel_workspace_serve.Controller.Workspaces.Rollback.{is_ready}
use parallel_workspace_serve.Controller.Workspaces.Credentials.{
  verify_user_provided_git_credential, issue_git_credential, obtain_credential,
  reconcile_git_credential,
}
use parallel_workspace_serve.Controller.Workspaces.Provisioning.{
  Platform, reconcile_ingress, reconcile_database, published, mark_ready, publish, connect,
  await_replica, start_compute, share_document, create_storage, create_database, record_name,
  resolve_resource_name, provision_named, provision, provision_own,
}
use parallel_workspace_serve.Controller.Workspaces.Provisioning.Steps.{
  is_allowed, is_step, document-keeps,
}

abbrev pub is_ok : {A : Type 0} → Outcome Trace A → Bool
is_ok (ok a t) = true
is_ok (err e t) = false

-- The workspace was published as Ready under the name.
abbrev pub is_publication : String → Call → Bool
is_publication name (Call.update_status ws) =
    is_ready ws.status.phase && str_eq ws.status.workspace_id name
is_publication name _ = false

abbrev pub publishes : String → Outcome Trace CtrlResult → Bool
publishes name (ok CtrlResult.done t) = any (is_publication name) t
publishes name (ok (requeue_after n) t) = false
publishes name (err e t) = false

-- Every call succeeds, and a replica is ready.
pub record IsHealthy (env : Cluster) : Type 0 where
  pub listing : Trace → List Workspace
  pub lists : (t : Trace) → env.list_workspaces t ≡ found (listing t)
  pub updates : (t : Trace) (ws : Workspace) → env.update_status t ws ≡ none
  pub document : Trace → String → String
  pub documents : (t : Trace) (name : String) → env.get_config_map t name ≡ found (document t name)
  pub rewrites : (t : Trace) (name text : String) → env.update_config_map t name text ≡ none
  pub claims : (t : Trace) (pvc : PersistentVolumeClaim) → env.create_pvc t pvc ≡ created
  pub computes : (t : Trace) (sts : StatefulSetObject) → env.create_stateful_set t sts ≡ created
  pub databases : (t : Trace) (name ref : String) → env.ensure_database t name ref ≡ none
  pub routes :
      (t : Trace) (name preview report : String) → env.ensure_routing t name preview report ≡ none
  pub secrets : (t : Trace) (name : String) → env.get_secret t name ≡ found tt
  pub compute : Trace → String → StatefulSet
  pub runs : (t : Trace) (name : String) → env.get_stateful_set t name ≡ found (compute t name)
  pub replica : (t : Trace) (name : String) → 1 ≤ (compute t name).ready_replicas

module _ (env : Cluster) (ops : ConditionOps) (r : Setup) (p : Platform)
    (healthy : IsHealthy env) where
  document-ok :
      (ws : Workspace) (name : String) (t : Trace)
      → is_ok (reconcile_claude_md env r ws name t) ≡ true
  unfolding reconcile_claude_md write_document active_blackboard_entries list_workspaces
  document-ok ws name t = grind (arith, healthy.lists, healthy.documents, healthy.rewrites)

  sync-ok : (ws : Workspace) (t : Trace) → is_ok (sync_blackboard env r ws t) ≡ true
  unfolding sync_blackboard current_files now
  sync-ok ws t = ground arith

  keep_publication :
      (name : String) (c : Call) (t : Trace)
      → any (is_publication name) t ≡ true
      → is_step env r p c ≡ false
      → any (is_publication name) (c ∷ t) ≡ true
  keep_publication name c t h s = ground arith

  publish-publishes :
      (ws : Workspace) (name : String) (urls : WorkspaceUrls) (t : Trace)
      → publishes name (publish env ops r p ws name urls t) ≡ true
  unfolding publish mark_ready set_condition now update_status published
  publish-publishes ws name urls t =
      let shared =
        document-keeps env ops r p (λ u. any (is_publication name) u ≡ true)
          (keep_publication name) in
      grind (arith, sync-ok ws t, document-ok, shared, healthy.updates, eq_refl name)

  credential-ok :
      (ws : Workspace) (name : String) (t : Trace)
      → r.has_credential_issuer ≡ true
      → is_allowed env r p ws.spec.repository ws.spec.branch ≡ true
      → is_ok (reconcile_git_credential p.to_lower p.equal_fold env r ws name t) ≡ true
  unfolding reconcile_git_credential obtain_credential verify_user_provided_git_credential
      issue_git_credential
  credential-ok ws name t i a = grind (arith, i, a, healthy.secrets)

  -- What a pass needs of the deployment and of the workspace.
  abbrev Admits : Workspace → Type 0
  Admits ws =
      (r.has_credential_issuer ≡ true)
      × (is_allowed env r p ws.spec.repository ws.spec.branch ≡ true)

  connect-publishes :
      (ws : Workspace) (name : String) (t : Trace)
      → Admits ws
      → publishes name (connect env ops r p ws name t) ≡ true
  unfolding connect reconcile_ingress
  connect-publishes ws name t (i, a) =
      let given = λ (u : Trace). credential-ok ws name u i a in
      grind (arith, given, publish-publishes, healthy.routes)

  await-publishes :
      (ws : Workspace) (name : String) (t : Trace)
      → Admits ws
      → publishes name (await_replica env ops r p ws name t) ≡ true
  unfolding await_replica get_stateful_set
  await-publishes ws name t a = ground (
    arith,
    connect-publishes ws name (Call.get_stateful_set name ∷ t) a,
    healthy.runs t name,
    healthy.replica t name,
  )

  start-publishes :
      (ws : Workspace) (tmpl : WorkspaceTemplate) (name : String) (sts : StatefulSetObject)
      (t : Trace)
      → Admits ws
      → build_stateful_set p.parse_quantity p.init_script r.namespace ws tmpl name ≡ some sts
      → publishes name (start_compute env ops r p ws tmpl name t) ≡ true
  unfolding start_compute
  start-publishes ws tmpl name sts t a b =
      let awaited = λ (u : Trace). await-publishes ws name u a in
      grind (arith, awaited, healthy.computes)

  share-publishes :
      (ws : Workspace) (tmpl : WorkspaceTemplate) (name : String) (sts : StatefulSetObject)
      (t : Trace)
      → Admits ws
      → build_stateful_set p.parse_quantity p.init_script r.namespace ws tmpl name ≡ some sts
      → publishes name (share_document env ops r p ws tmpl name t) ≡ true
  unfolding share_document
  share-publishes ws tmpl name sts t a b =
      let started = λ (u : Trace). start-publishes ws tmpl name sts u a b in
      grind (arith, started, document-ok)

  database-publishes :
      (ws : Workspace) (tmpl : WorkspaceTemplate) (name : String) (pvc : PersistentVolumeClaim)
      (sts : StatefulSetObject) (t : Trace)
      → Admits ws
      → build_pvc p.parse_quantity ws tmpl name ≡ some pvc
      → build_stateful_set p.parse_quantity p.init_script r.namespace ws tmpl name ≡ some sts
      → publishes name (create_database env ops r p ws tmpl name t) ≡ true
  unfolding create_database reconcile_database create_storage
  database-publishes ws tmpl name pvc sts t a c b =
      let shared = λ (u : Trace). share-publishes ws tmpl name sts u a b in
      grind (arith, shared, healthy.claims, healthy.databases)

  named-publishes :
      (ws : Workspace) (tmpl : WorkspaceTemplate) (pvc : PersistentVolumeClaim)
      (sts : StatefulSetObject) (t : Trace)
      → is_blank ws.status.workspace_id ≡ false
      → Admits ws
      → build_pvc p.parse_quantity ws tmpl ws.status.workspace_id ≡ some pvc
      → build_stateful_set p.parse_quantity p.init_script r.namespace ws tmpl ws.status.workspace_id
        ≡ some sts
      → publishes ws.status.workspace_id (provision env ops r p ws tmpl t) ≡ true
  unfolding provision provision_named resolve_resource_name record_name
  named-publishes ws tmpl pvc sts t n a c b = ground (
    arith,
    database-publishes ws tmpl ws.status.workspace_id pvc sts t a c b,
    eq_refl ws.status.workspace_id,
  )

  -- A pass over a workspace that has its name ends, and publishes it as Ready under that name, when
  -- its template is read and its quantities are in order, every call succeeds and a replica is
  -- ready, and the deployment has an issuer of credentials and protects neither the repository nor
  -- the branch.
  pub provision_own-publishes :
      (ws : Workspace) (tmpl : WorkspaceTemplate) (pvc : PersistentVolumeClaim)
      (sts : StatefulSetObject) (t : Trace)
      → is_blank ws.status.workspace_id ≡ false
      → env.get_template t ws.spec.template_ref ≡ found tmpl
      → build_pvc p.parse_quantity ws tmpl ws.status.workspace_id ≡ some pvc
      → build_stateful_set p.parse_quantity p.init_script r.namespace ws tmpl ws.status.workspace_id
        ≡ some sts
      → r.has_credential_issuer ≡ true
      → is_allowed env r p ws.spec.repository ws.spec.branch ≡ true
      → publishes ws.status.workspace_id (provision_own env ops r p ws t) ≡ true
  unfolding provision_own
  provision_own-publishes ws tmpl pvc sts t n f c b i a =
      rw (f, publishes)
        (named-publishes ws tmpl pvc sts (Call.get_template ws.spec.template_ref ∷ t) n (i, a) c b)
