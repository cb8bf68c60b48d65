-- ===== src/Controller/Workspaces/Cluster.antt =====
-- What the workspace reconciler calls: the API server, the supervisor of a workspace, the adapters
-- that a deployment plugs in, and the clock. A call joins the trace, the newest first, and is
-- answered by the calls before it.
use parallel_workspace_serve.Prelude.{ℕ, String, Bool, List, Option}
use parallel_workspace_serve.Controller.Types.{Workspace, EvacuationSnapshot, Message}
use parallel_workspace_serve.Controller.Templates.{WorkspaceTemplate}
use parallel_workspace_serve.Controller.Workspaces.Resources.{
  PersistentVolumeClaim, StatefulSetObject,
}
use parallel_workspace_serve.Controller.Api.{Read}

pub record StatefulSet : Type 0 where
  pub replicas : Option ℕ
  pub ready_replicas : ℕ

-- `ready` is the status of the node's Ready condition, `none` where it has no such condition.
pub record Node : Type 0 where
  pub ready : Option Bool
  -- Node.status.images, the names of each image.
  pub images : List (List String)

-- The status of a ResourceQuota: an amount for each resource that it governs, `none` for others.
pub record ResourceQuota : Type 0 where
  pub hard : String → Option ℕ
  pub used : String → Option ℕ

-- A credential that an issuer made: the data of its Secret, opaque here, and the handle.
pub record IssuedGitCredential : Type 0 where
  pub secret_data : String
  pub secret_type : String
  pub handle : String

-- The Secret of a credential.
pub record CredentialSecret : Type 0 where
  pub name : String
  pub label : String
  pub secret_type : String
  pub secret_data : String
  pub handle : Option String

pub data Call : Type 0 where
  get_workspace : String → Call
  list_workspaces : Call
  update_workspace : Workspace → Call
  update_status : Workspace → Call
  get_template : String → Call
  get_node : String → Call
  get_stateful_set : String → Call
  update_replicas : String → ℕ → Call
  delete_stateful_set : String → Call
  delete_pvc : String → Call
  release_database : String → Call
  remove_routing : String → Call
  delete_config_map : String → Call
  delete_secret : String → Call
  request_evacuation : Workspace → Call
  confirm_evacuation : Workspace → Call
  ssh_session_count : Workspace → Call
  changed_files : Workspace → Call
  get_config_map : String → Call
  create_config_map : String → String → Call
  update_config_map : String → String → Call
  get_resource_quota : String → Call
  create_pvc : PersistentVolumeClaim → Call
  create_stateful_set : StatefulSetObject → Call
  ensure_database : String → String → Call
  ensure_routing : String → String → String → Call
  get_secret : String → Call
  issue_credential : String → String → String → Call
  create_secret : CredentialSecret → Call
  notify : String → String → Message → Call
  read_clock : Call

abbrev pub Trace : Type 0
Trace = List Call

-- What a delete answers; the reconcilers take a missing object for a deleted one.
pub data Deleted : Type 0 where
  deleted : Deleted
  missing : Deleted
  delete_failed : String → Deleted

-- What a create answers; the reconcilers take an object that is there for a created one.
pub data Created : Type 0 where
  created : Created
  already_exists : Created
  create_failed : String → Created

-- A write answers with its error, if it has one.
pub record Cluster : Type 0 where
  pub get_workspace : Trace → String → Read Workspace
  pub list_workspaces : Trace → Read (List Workspace)
  pub update_workspace : Trace → Workspace → Option String
  pub update_status : Trace → Workspace → Option String
  pub get_template : Trace → String → Read WorkspaceTemplate
  pub get_node : Trace → String → Read Node
  pub get_stateful_set : Trace → String → Read StatefulSet
  pub update_replicas : Trace → String → ℕ → Option String
  pub delete_stateful_set : Trace → String → Deleted
  pub delete_pvc : Trace → String → Deleted
  pub release_database : Trace → String → Option String
  pub remove_routing : Trace → String → Option String
  pub delete_config_map : Trace → String → Deleted
  pub delete_secret : Trace → String → Deleted
  pub request_evacuation : Trace → Workspace → Read EvacuationSnapshot
  pub confirm_evacuation : Trace → Workspace → Read Bool
  pub ssh_session_count : Trace → Workspace → Read ℕ
  pub changed_files : Trace → Workspace → Read (List String)
  -- The document in a ConfigMap.
  pub get_config_map : Trace → String → Read String
  pub create_config_map : Trace → String → String → Created
  pub update_config_map : Trace → String → String → Option String
  pub get_resource_quota : Trace → String → Read ResourceQuota
  pub create_pvc : Trace → PersistentVolumeClaim → Created
  pub create_stateful_set : Trace → StatefulSetObject → Created
  -- The name and the cluster's reference; the name and the hosts of the preview and the report.
  pub ensure_database : Trace → String → String → Option String
  pub ensure_routing : Trace → String → String → String → Option String
  -- Whether a Secret is there.
  pub get_secret : Trace → String → Read (Unit {0})
  -- The name, the repository and the branch that a credential is limited to.
  pub issue_credential : Trace → String → String → String → Read IssuedGitCredential
  pub create_secret : Trace → CredentialSecret → Created
  pub clock : Trace → ℕ

-- The fields that a deployment sets; a timeout of 0 is one that is not positive.
pub record Setup : Type 0 where
  pub provisioning_timeout : ℕ
  pub poll_interval : ℕ
  pub has_confirmer : Bool
  pub has_requester : Bool
  pub has_notify : Bool
  pub has_session_counter : Bool
  pub has_changed_files_reporter : Bool
  pub has_credential_issuer : Bool
  pub protected_repositories : List String
  pub protected_branches : List String
  -- The namespace of the workspaces, and the zone of their addresses.
  pub namespace : String
  pub domain : String
