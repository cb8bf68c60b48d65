-- ===== src/Controller/Workspaces/Passing.antt =====
-- workspace_controller.go and its helpers: more theorems at concrete inputs.

use parallel_workspace_serve.Prelude.{
  ℕ, ◌+◌, String, true, false, [], ◌∷◌, Option, none, some, ◌&&◌, refl, ◌≡◌, str_eq, if◌then◌else◌,
  arith, trim_right, trim_left, trim_space,
}
use parallel_workspace_serve.Prelude.Outcome.{ok, final}
use parallel_workspace_serve.Controller.Types.{Workspace, WorkspacePhase, BlackboardEntry}
use parallel_workspace_serve.Controller.Templates.{WorkspaceTemplate}
use parallel_workspace_serve.Controller.Api.{found, not_found}
use parallel_workspace_serve.Controller.Naming.{
  replace_invalid, collapse_dashes, truncate_dns_label, sanitize_dns_label, derive_resource_name,
}
use parallel_workspace_serve.Controller.Naming.Labels.{IsLabel, derive_resource_name-IsLabel}
use parallel_workspace_serve.Controller.Workspaces.Fixtures.{
  workspace, template, cluster, setup, newest_first,
}
use parallel_workspace_serve.Controller.Workspaces.Cluster.{Call, Cluster, Setup}
use parallel_workspace_serve.Controller.Workspaces.Blackboard.{live_entries}
use parallel_workspace_serve.Controller.Workspaces.Blackboard.Order.{Apart}
use parallel_workspace_serve.Controller.Workspaces.Conflicts.{file_conflict_detail}
use parallel_workspace_serve.Controller.Workspaces.Conflicts.Overlap.{
  names_file, changed_elsewhere, file_conflict_detail-names,
}
use parallel_workspace_serve.Controller.Workspaces.Calls.{list_workspaces}
use parallel_workspace_serve.Controller.Workspaces.Admission.{
  counts, add_size, add_declared, declared_total, disk_room, node_disk_budget_has_room,
}
use parallel_workspace_serve.Controller.Workspaces.Admission.Budget.{
  Fits, declared, node_disk_budget_has_room-declared,
}
use parallel_workspace_serve.Controller.Workspaces.Credentials.{
  protects_repository, protects_branch,
}
use parallel_workspace_serve.Controller.Workspaces.Captures.{Safe}
use parallel_workspace_serve.Controller.Workspaces.Provisioning.{Platform, provision_own}
use parallel_workspace_serve.Controller.Workspaces.Provisioning.Steps.{Ordered, is_allowed}
use parallel_workspace_serve.Controller.Workspaces.Provisioning.Ordered.{provision_own-Ordered}
use parallel_workspace_serve.Controller.Workspaces.Provisioning.Complete.{
  IsHealthy, publishes, provision_own-publishes,
}
use parallel_workspace_serve.Controller.Workspaces.Resources.{
  PersistentVolumeClaim, build_pvc, parse_resource_list, stateful_set_of, build_stateful_set,
}
use parallel_workspace_serve.Controller.Workspaces.Reconcile.{reconcile_read}
use parallel_workspace_serve.Controller.Workspaces.Reconcile.Settled.{reconcile_read-Safe}

-- A digest of 64 digits.
abbrev digest : String
digest = "0123456789abcdef0123456789abcdef0123456789abcdef0123456789abcdef"

abbrev quantity : String → Option ℕ
quantity s = if str_eq s "50Gi" then some 50 else some 20

abbrev platform : Platform
platform = record {
  parse_quantity = quantity;
  one_pod = 1;
  to_lower = λ s. s;
  equal_fold = str_eq;
  hex_digest = λ s. digest;
  init_script = "";
}

abbrev idle : Workspace
idle = workspace "w" WorkspacePhase.ready

reconcile_read-Safe_example :
    Safe cluster (final (reconcile_read cluster newest_first setup platform idle []))
reconcile_read-Safe_example =
    reconcile_read-Safe cluster newest_first setup platform idle [] refl refl

-- A new workspace, on a cluster whose node has the image and with an issuer of credentials.
abbrev fresh : Workspace
fresh = record (workspace "w" WorkspacePhase.unset) {
  status = record (workspace "w" WorkspacePhase.unset).status { workspace_id = "" };
}

abbrev generous : Cluster
generous = record cluster {
  get_node = λ t name. found (record { ready = some true; images = (template.image ∷ []) ∷ [] });
  get_secret = λ t name. not_found "no secret";
  issue_credential = λ t name repository branch.
      found (record { secret_data = "d"; secret_type = ""; handle = "" });
}

abbrev issuing : Setup
issuing = record setup { has_credential_issuer = true }

provision_own-Ordered_example :
    Ordered generous issuing platform
      (final (provision_own generous newest_first issuing platform fresh []))
provision_own-Ordered_example =
    provision_own-Ordered generous newest_first issuing platform fresh [] refl refl

feature_name : derive_resource_name (λ s. s) (λ s. digest) "feature" (λ n. false) ≡ some "feature"
unfolding derive_resource_name sanitize_dns_label replace_invalid collapse_dashes truncate_dns_label
    trim_right trim_left
feature_name = refl

derive_resource_name-IsLabel_example : IsLabel "feature" × (false ≡ false)
derive_resource_name-IsLabel_example =
    derive_resource_name-IsLabel (λ s. s) (λ s. digest) "feature" (λ n. false) (λ s. refl)
      (λ s. refl) "feature" feature_name

-- Two branches that change one file.
abbrev entry : String → BlackboardEntry
entry branch = record {
  branch = branch;
  summary = "";
  changed_files = "a.go" ∷ "b.go" ∷ [];
  public_interfaces = [];
  active = true;
  updated_at = none;
}

file_conflict_detail-names_example :
    names_file "a.go" (file_conflict_detail (entry "other" ∷ entry "own" ∷ []) (some (entry "own")))
    ≡ true && true && changed_elsewhere "a.go" "own" (entry "other" ∷ entry "own" ∷ [])
file_conflict_detail-names_example =
    file_conflict_detail-names "a.go" (entry "other" ∷ entry "own" ∷ []) (entry "own")

abbrev working : String → Workspace
working branch = record (workspace branch WorkspacePhase.ready) {
  status = record (workspace branch WorkspacePhase.ready).status {
    blackboard = some (entry branch);
  };
}

two-Apart : Apart (live_entries (working "b" ∷ working "a" ∷ []))
unfolding live_entries
two-Apart = ((refl, tt), (tt, tt))

-- A node with a budget, and one other workspace on it.
abbrev bounded : WorkspaceTemplate
bounded = record template { storage = record { size = ""; node_disk_budget = "50Gi" } }

abbrev crowded : Cluster
crowded = record cluster {
  list_workspaces = λ t. found (workspace "other" WorkspacePhase.ready ∷ fresh ∷ []);
}

has_room :
    node_disk_budget_has_room crowded newest_first setup quantity 1 fresh bounded []
    ≡ ok none (Call.get_template "default" ∷ Call.list_workspaces ∷ [])
unfolding node_disk_budget_has_room disk_room list_workspaces declared_total add_declared add_size
    counts
has_room = refl

node_disk_budget_has_room-declared_example :
    Fits 50
      (20
        + declared crowded newest_first setup quantity 1
            (λ name. found template)
            fresh
            "node"
            (workspace "other" WorkspacePhase.ready ∷ fresh ∷ []))
      none
node_disk_budget_has_room-declared_example =
    node_disk_budget_has_room-declared crowded newest_first setup quantity 1
      (λ name. found template) fresh bounded (workspace "other" WorkspacePhase.ready ∷ fresh ∷ [])
      50 20 [] (Call.get_template "default" ∷ Call.list_workspaces ∷ []) none (λ v. refl)
      (λ v name. refl) refl refl refl has_room

-- A workspace that has its name, on a server where all goes well.
abbrev named : Workspace
named = workspace "w" WorkspacePhase.provisioning

cluster-IsHealthy : IsHealthy cluster
cluster-IsHealthy = record {
  listing = λ t. [];
  lists = λ t. refl;
  updates = λ t ws. refl;
  document = λ t name. "";
  documents = λ t name. refl;
  rewrites = λ t name text. refl;
  claims = λ t pvc. refl;
  computes = λ t sts. refl;
  databases = λ t name ref. refl;
  routes = λ t name preview report. refl;
  secrets = λ t name. refl;
  compute = λ t name. record { replicas = some 1; ready_replicas = 1 };
  runs = λ t name. refl;
  replica = λ t name. omega arith;
}

abbrev named_pvc : PersistentVolumeClaim
named_pvc = record {
  name = "feature";
  label = "w";
  storage_class_name = "local-path";
  storage = 20;
}

named_pvc_built : build_pvc quantity named template "feature" ≡ some named_pvc
unfolding build_pvc
named_pvc_built = refl

named_compute_built :
    build_stateful_set quantity "" "workspaces" named template "feature"
    ≡ some (
        stateful_set_of quantity "" "workspaces" named template "feature"
          (record { cpu = 20; memory = 20 })
          (record { cpu = 20; memory = 20 }))
unfolding build_stateful_set parse_resource_list
named_compute_built = refl

unprotected : is_allowed cluster issuing platform "git" "feature" ≡ true
unfolding protects_repository protects_branch trim_space trim_left trim_right
unprotected = refl

provision_own-publishes_example :
    publishes "feature" (provision_own cluster newest_first issuing platform named []) ≡ true
provision_own-publishes_example =
    provision_own-publishes cluster newest_first issuing platform cluster-IsHealthy named template
      named_pvc
      (stateful_set_of quantity "" "workspaces" named template "feature"
        (record { cpu = 20; memory = 20 }) (record { cpu = 20; memory = 20 }))
      [] refl refl named_pvc_built named_compute_built refl unprotected
