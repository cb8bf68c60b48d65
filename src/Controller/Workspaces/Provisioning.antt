-- ===== src/Controller/Workspaces/Provisioning.antt =====
-- workspace_controller.go: `reconcileProvisioning`, the creation of a workspace.
-- database_reconciler.go and ingress_reconciler.go: the calls of the adapters.
pub mod Steps
pub mod Ordered
pub mod Complete
use Prim.Native.String
use parallel_workspace_serve.Prelude.{
  ℕ, String, Bool, true, false, List, [], ◌∷◌, Option, none, some, ◌&&◌, not, ltb, str_eq, is_blank,
  any, concat_texts,
}
use parallel_workspace_serve.Prelude.Outcome.{M, ok, err, return, fail, ◌>>=◌, ◌>>◌}
use parallel_workspace_serve.Controller.Types.{
  Workspace, WorkspaceUrls, WorkspacePhase, ConditionStatus, Message, CtrlResult, requeue_after,
}
use parallel_workspace_serve.Controller.Templates.{WorkspaceTemplate}
use parallel_workspace_serve.Controller.Conditions.{ConditionOps}
use parallel_workspace_serve.Controller.Naming.{derive_resource_name, host_label_with_suffix}
use parallel_workspace_serve.Controller.Api.{Read, found, not_found, failed}
use parallel_workspace_serve.Controller.Workspaces.Resources.{
  PersistentVolumeClaim, StatefulSetObject, build_pvc, build_stateful_set,
}
use parallel_workspace_serve.Controller.Workspaces.Cluster.{
  StatefulSet, Call, Trace, Cluster, Setup,
}
use parallel_workspace_serve.Controller.Workspaces.Calls.{
  now, poll_interval, update_status, list_workspaces, get_stateful_set, ensured, written,
}
use parallel_workspace_serve.Controller.Workspaces.Evacuation.{condition, set_condition}
use parallel_workspace_serve.Controller.Workspaces.Lifecycle.{get_template}
use parallel_workspace_serve.Controller.Workspaces.Blackboard.{sync_blackboard}
use parallel_workspace_serve.Controller.Workspaces.Documents.{reconcile_claude_md}
use parallel_workspace_serve.Controller.Workspaces.Owners.{find_canonical}
use parallel_workspace_serve.Controller.Workspaces.Rollback.{
  condition_provisioned, mirror_canonical, fail_and_rollback, requeue_or_fail,
}
use parallel_workspace_serve.Controller.Workspaces.Admission.{reconcile_admission}
use parallel_workspace_serve.Controller.Workspaces.Credentials.{reconcile_git_credential}

-- What the libraries and the program's embedded script give.
pub record Platform : Type 0 where
  pub parse_quantity : String → Option ℕ
  -- resource.MustParse("1").
  pub one_pod : ℕ
  pub to_lower : String → String
  pub equal_fold : String → String → Bool
  pub hex_digest : String → String
  pub init_script : String

-- How a Go call ended whose error the caller looks at.
pub data Tried (A : Type 0) : Type 0 where
  succeeded : A → Tried A
  erred : String → Tried A

-- The call and its error as a value.
abbrev pub attempt : {A : Type 0} → M Trace A → M Trace (Tried A)
attempt m t = elim (m t) [ ok a u ↦ ok (succeeded a) u | err e u ↦ ok (erred e) u ]

-- Whether another workspace has the name.
unfoldable pub is_taken : Workspace → List Workspace → String → Bool
is_taken ws items name =
    any (λ item. not (str_eq item.name ws.name) && str_eq item.status.workspace_id name) items

abbrev pub with_name : String → Workspace → Workspace
with_name name ws = record ws { status = record ws.status { workspace_id = name } }

abbrev pub preview_host : String → String
preview_host name = host_label_with_suffix name "-preview"

abbrev pub report_host : String → String
report_host name = host_label_with_suffix name "-report"

abbrev pub url_of : String → String → String
url_of host domain = concat_texts ("https://" ∷ host ∷ "." ∷ domain ∷ [])

unfoldable pub urls_of : String → String → WorkspaceUrls
urls_of domain name = record {
  preview = url_of (preview_host name) domain;
  session = url_of name domain;
  report = url_of (report_host name) domain;
}

unfoldable pub published : String → WorkspaceUrls → ℕ → Workspace → Workspace
published name urls at ws = record ws {
  status = record ws.status {
    phase = WorkspacePhase.ready;
    workspace_id = name;
    urls = urls;
    session_id = concat_texts (name ∷ "-session" ∷ []);
    last_activity_at = some at;
  };
}

module _ (env : Cluster) (ops : ConditionOps) (r : Setup) (p : Platform) where
  unfoldable pub resolve_resource_name : Workspace → M Trace String
  resolve_resource_name ws = elim (is_blank ws.status.workspace_id) [
    | false ↦ return ws.status.workspace_id
    | true ↦ list_workspaces env >>= λ read. elim read [
      | not_found e ↦ fail e
      | failed e ↦ fail e
      | found items ↦
          elim (derive_resource_name p.to_lower p.hex_digest ws.spec.branch (is_taken ws items)) [
            | none ↦ fail "devplatform: cannot derive unique resource name"
            | some name ↦ return name
          ]
    ]
  ]

  abbrev pub ensure_database : String → String → M Trace (Unit {0})
  ensure_database name cluster_ref t =
      written (env.ensure_database t name cluster_ref) (Call.ensure_database name cluster_ref ∷ t)

  unfoldable pub reconcile_database : WorkspaceTemplate → String → M Trace (Unit {0})
  reconcile_database tmpl name = elim tmpl.database [
    | none ↦ return tt
    | some cluster_ref ↦ ensure_database name cluster_ref
  ]

  abbrev pub create_pvc : PersistentVolumeClaim → M Trace (Unit {0})
  create_pvc pvc t = ensured (env.create_pvc t pvc) (Call.create_pvc pvc ∷ t)

  abbrev pub create_stateful_set : StatefulSetObject → M Trace (Unit {0})
  create_stateful_set sts t =
      ensured (env.create_stateful_set t sts) (Call.create_stateful_set sts ∷ t)

  abbrev pub ensure_routing : String → M Trace (Unit {0})
  ensure_routing name t =
      written (env.ensure_routing t name (preview_host name) (report_host name))
        (Call.ensure_routing name (preview_host name) (report_host name) ∷ t)

  unfoldable pub reconcile_ingress : String → M Trace WorkspaceUrls
  reconcile_ingress name = ensure_routing name >> return (urls_of r.domain name)

  unfoldable pub mark_ready : Workspace → String → WorkspaceUrls → M Trace (Unit {0})
  mark_ready ws name urls = do
    (ws', changed) ← sync_blackboard env r ws
    at ← now env
    ws'' ←
        set_condition env ops r
          (condition condition_provisioned ConditionStatus.condition_true "SubstrateReady"
            (Message.text "workspace PVC and StatefulSet are ready"))
          (published name urls at ws')
    update_status env ws''
    reconcile_claude_md env r ws'' name

  unfoldable pub publish : Workspace → String → WorkspaceUrls → M Trace CtrlResult
  publish ws name urls = mark_ready ws name urls >> return CtrlResult.done

  -- The end of a pass, from the routes on.
  unfoldable pub connect : Workspace → String → M Trace CtrlResult
  connect ws name = attempt (reconcile_ingress name) >>= λ routed. elim routed [
    | erred e ↦ requeue_or_fail env ops r ws name "IngressUnavailable" e
    | succeeded urls ↦
        attempt (reconcile_git_credential p.to_lower p.equal_fold env r ws name) >>= λ given.
        elim given [
          | erred e ↦ requeue_or_fail env ops r ws name "GitCredentialUnavailable" e
          | succeeded u ↦ publish ws name urls
        ]
  ]

  unfoldable pub await_replica : Workspace → String → M Trace CtrlResult
  await_replica ws name = get_stateful_set env name >>= λ read. elim read [
    | not_found e ↦ fail e
    | failed e ↦ fail e
    | found sts ↦ elim (ltb sts.ready_replicas 1) [
      | true ↦
          requeue_or_fail env ops r ws name "WaitingForStatefulSetReady"
            "waiting for the workspace pod to become ready"
      | false ↦ connect ws name
    ]
  ]

  unfoldable pub start_compute : Workspace → WorkspaceTemplate → String → M Trace CtrlResult
  start_compute ws tmpl name =
      elim (build_stateful_set p.parse_quantity p.init_script r.namespace ws tmpl name) [
        | none ↦
            fail_and_rollback env ops r ws name "InvalidTemplate"
              (Message.text "devplatform: invalid quantity")
        | some sts ↦ attempt (create_stateful_set sts) >>= λ done. elim done [
          | erred e ↦ requeue_or_fail env ops r ws name "StatefulSetCreateFailed" e
          | succeeded u ↦ await_replica ws name
        ]
      ]

  unfoldable pub share_document : Workspace → WorkspaceTemplate → String → M Trace CtrlResult
  share_document ws tmpl name = attempt (reconcile_claude_md env r ws name) >>= λ done. elim done [
    | erred e ↦ requeue_or_fail env ops r ws name "ClaudeMDUnavailable" e
    | succeeded u ↦ start_compute ws tmpl name
  ]

  unfoldable pub create_storage : Workspace → WorkspaceTemplate → String → M Trace CtrlResult
  create_storage ws tmpl name = elim (build_pvc p.parse_quantity ws tmpl name) [
    | none ↦
        fail_and_rollback env ops r ws name "InvalidTemplate"
          (Message.text "devplatform: invalid storage size")
    | some pvc ↦ attempt (create_pvc pvc) >>= λ done. elim done [
      | erred e ↦ requeue_or_fail env ops r ws name "PVCCreateFailed" e
      | succeeded u ↦ share_document ws tmpl name
    ]
  ]

  unfoldable pub create_database : Workspace → WorkspaceTemplate → String → M Trace CtrlResult
  create_database ws tmpl name = attempt (reconcile_database tmpl name) >>= λ done. elim done [
    | erred e ↦ requeue_or_fail env ops r ws name "DatabaseUnavailable" e
    | succeeded u ↦ create_storage ws tmpl name
  ]

  -- The name in the status first, then the objects.
  unfoldable pub record_name : Workspace → WorkspaceTemplate → String → M Trace CtrlResult
  record_name ws tmpl name = elim (str_eq ws.status.workspace_id name) [
    | true ↦ create_database ws tmpl name
    | false ↦ update_status env (with_name name ws) >> create_database (with_name name ws) tmpl name
  ]

  unfoldable pub provision_named : Workspace → WorkspaceTemplate → M Trace CtrlResult
  provision_named ws tmpl = attempt (resolve_resource_name ws) >>= λ resolved. elim resolved [
    | erred e ↦ fail_and_rollback env ops r ws "" "NameDerivationFailed" (Message.text e)
    | succeeded name ↦ record_name ws tmpl name
  ]

  abbrev pub after_admission : WorkspaceTemplate → Workspace × Bool → M Trace CtrlResult
  after_admission tmpl (ws, true) = provision_named ws tmpl
  after_admission tmpl (ws, false) = return (requeue_after (poll_interval r))

  unfoldable pub provision : Workspace → WorkspaceTemplate → M Trace CtrlResult
  provision ws tmpl = elim (is_blank ws.status.workspace_id) [
    | false ↦ provision_named ws tmpl
    | true ↦
        reconcile_admission env ops r p.parse_quantity p.one_pod ws tmpl >>= after_admission tmpl
  ]

  unfoldable pub provision_own : Workspace → M Trace CtrlResult
  provision_own ws = get_template env ops r ws >>= λ read. elim read [
    | not_found e ↦ requeue_or_fail env ops r ws "" "WorkspaceTemplateNotFound" e
    | failed e ↦ fail e
    | found tmpl ↦ provision ws tmpl
  ]

  abbrev pub result_of : Workspace × CtrlResult → CtrlResult
  result_of (ws, result) = result

  unfoldable pub reconcile_provisioning : Workspace → M Trace CtrlResult
  reconcile_provisioning ws = find_canonical env ws >>= λ canonical. elim canonical [
    | some owner ↦ mirror_canonical env ops r ws owner >>= λ left. return (result_of left)
    | none ↦ provision_own ws
  ]
