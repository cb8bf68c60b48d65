-- ===== src/Controller/Workspaces/Fixtures.antt =====
-- A server, a deployment and a workspace for the runs.
use parallel_workspace_serve.Prelude.{
  String, true, false, List, [], ◌∷◌, Option, none, some, str_eq, if◌then◌else◌,
}
use parallel_workspace_serve.Controller.Types.{
  Workspace, WorkspacePhase, DesiredPhase, EvacuationSnapshot, Condition,
}
use parallel_workspace_serve.Controller.Conditions.{ConditionOps}
use parallel_workspace_serve.Controller.Api.{found, not_found, failed}
use parallel_workspace_serve.Controller.Templates.{WorkspaceTemplate}
use parallel_workspace_serve.Controller.Workspaces.Cluster.{Cluster, Setup, created, deleted}
use parallel_workspace_serve.Controller.Workspaces.Evacuation.{is_evacuation_complete}

abbrev pub workspace : String → WorkspacePhase → Workspace
workspace name phase = record {
  name = name;
  creation_timestamp = 0;
  deleting = false;
  finalizers = "workspace.tom1022.github.io/evacuation" ∷ [];
  active_model = "";
  browser_connections = none;
  summary = "";
  public_interfaces = "";
  spec = record {
    repository = "git";
    branch = "feature";
    base_branch = none;
    template_ref = "default";
    git_credential_secret_ref = none;
    desired_phase = DesiredPhase.suspended;
  };
  status = record {
    phase = phase;
    workspace_id = "feature";
    urls = record { preview = ""; session = ""; report = "" };
    session_id = "feature-session";
    last_activity_at = none;
    last_evacuation = none;
    blackboard = none;
    conditions = [];
  };
}

abbrev pub snapshot : EvacuationSnapshot
snapshot = record {
  workspace_id = "feature";
  branch = "feature";
  head_commit = "0";
  bundle_key = "workspace/feature/latest/bundle.git";
  dirty_archive_key = "";
  captured_at = some 7;
  size_bytes = 1;
}

abbrev pub template : WorkspaceTemplate
template = record {
  name = "default";
  image = "base@sha256:0";
  resources = record {
    requests = record { cpu = "1"; memory = "1" };
    limits = record { cpu = "2"; memory = "2" };
  };
  storage = record { size = ""; node_disk_budget = "" };
  node_name = "node";
  priority_class_name = "devplatform-workspace";
  model = "";
  database = none;
  auth = "auth";
  evacuation = record { bucket = "b"; endpoint = "e"; region = "r"; secret_ref = "s" };
}

-- A server on which everything succeeds and one replica is ready, with the shipped confirmer.
abbrev pub cluster : Cluster
cluster = record {
  get_workspace = λ t name. found (workspace name WorkspacePhase.ready);
  list_workspaces = λ t. found [];
  update_workspace = λ t ws. none;
  update_status = λ t ws. none;
  get_template = λ t ref. found template;
  get_node = λ t name. found (record { ready = some false; images = [] });
  get_stateful_set = λ t name. found (record { replicas = some 1; ready_replicas = 1 });
  update_replicas = λ t name n. none;
  delete_stateful_set = λ t name. deleted;
  delete_pvc = λ t name. deleted;
  release_database = λ t name. none;
  remove_routing = λ t name. none;
  delete_config_map = λ t name. deleted;
  delete_secret = λ t name. deleted;
  request_evacuation = λ t ws. found snapshot;
  confirm_evacuation = λ t ws. found (is_evacuation_complete ws);
  ssh_session_count = λ t ws. found 0;
  changed_files = λ t ws. found [];
  get_config_map = λ t name. found "";
  create_config_map = λ t name document. created;
  update_config_map = λ t name document. none;
  get_resource_quota = λ t name. not_found "no quota";
  create_pvc = λ t pvc. created;
  create_stateful_set = λ t sts. created;
  ensure_database = λ t name cluster_ref. none;
  ensure_routing = λ t name preview report. none;
  get_secret = λ t name. found tt;
  issue_credential = λ t name repository branch. failed "no issuer";
  create_secret = λ t s. created;
  clock = λ t. 100;
}

abbrev pub setup : Setup
setup = record {
  provisioning_timeout = 0;
  poll_interval = 0;
  has_confirmer = true;
  has_requester = true;
  has_notify = true;
  has_session_counter = true;
  has_changed_files_reporter = true;
  has_credential_issuer = false;
  protected_repositories = [];
  protected_branches = "main" ∷ [];
  namespace = "workspaces";
  domain = "example.org";
}

-- The newest condition of a type counts.
abbrev pub find : List Condition → String → Option Condition
find [] type = none
find (c ∷ cs) type = if str_eq c.type type then some c else find cs type

abbrev pub drop_type : List Condition → String → List Condition
drop_type [] type = []
drop_type (c ∷ cs) type = if str_eq c.type type then drop_type cs type else c ∷ drop_type cs type

abbrev pub newest_first : ConditionOps
newest_first = record {
  set_status_condition = λ at cs c. (c ∷ cs, true);
  find_status_condition = find;
  remove_status_condition = drop_type;
}
