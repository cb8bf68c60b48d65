-- ===== src/Controller/Workspaces/Resources.antt =====
-- resources.go: the objects that a workspace is made of.
-- The Kubernetes library reads a quantity: that is an argument, `none` where it fails.
use parallel_workspace_serve.Prelude.{
  ℕ, String, Bool, true, false, List, [], ◌∷◌, ◌++◌, Option, none, some, if◌then◌else◌, is_blank,
  concat_texts,
}
use parallel_workspace_serve.Controller.Types.{Workspace}
use parallel_workspace_serve.Controller.Templates.{ResourceList, WorkspaceTemplate}

-- corev1.EnvVar: a value, or a key of a Secret.
pub data EnvVar : Type 0 where
  value : String → String → EnvVar
  from_secret : String → String → String → EnvVar

-- What a volume is made from: a claim, or a Secret or ConfigMap with whether it may be missing.
pub data VolumeSource : Type 0 where
  claim : String → VolumeSource
  secret : String → Bool → Option ℕ → VolumeSource
  config_map : String → Bool → VolumeSource

pub record Volume : Type 0 where
  pub name : String
  pub source : VolumeSource

pub record VolumeMount : Type 0 where
  pub name : String
  pub mount_path : String
  pub read_only : Bool

pub record Quantities : Type 0 where
  pub cpu : ℕ
  pub memory : ℕ

pub record Container : Type 0 where
  pub name : String
  pub image : String
  pub command : List String
  pub env : List EnvVar
  pub ports : List (String × ℕ)
  pub mounts : List VolumeMount
  pub requests : Quantities
  pub limits : Quantities

-- The label is the value of workspace.tom1022.github.io/workspace, of the selector too.
pub record PersistentVolumeClaim : Type 0 where
  pub name : String
  pub label : String
  pub storage_class_name : String
  pub storage : ℕ

pub record StatefulSetObject : Type 0 where
  pub name : String
  pub label : String
  pub replicas : ℕ
  pub service_name : String
  -- The node selector kubernetes.io/hostname.
  pub node_name : String
  pub priority_class_name : String
  pub init_containers : List Container
  pub containers : List Container
  pub volumes : List Volume

abbrev pub default_workspace_storage_size : String
default_workspace_storage_size = "20Gi"

abbrev pub claude_md_config_map_name : String → String
claude_md_config_map_name name = concat_texts (name ∷ "-claude-md" ∷ [])

abbrev pub supervisor_binary_path : String
supervisor_binary_path = "/usr/local/bin/supervisor"

abbrev pub database_cert_mount_path : String
database_cert_mount_path = "/run/devplatform/database"

abbrev pub or_default_size : String → String
or_default_size size = if is_blank size then default_workspace_storage_size else size

module _ (parse_quantity : String → Option ℕ) where
  unfoldable pub build_pvc : Workspace → WorkspaceTemplate → String → Option PersistentVolumeClaim
  build_pvc ws tmpl name = elim (parse_quantity (or_default_size tmpl.storage.size)) [
    | none ↦ none
    | some storage ↦ some (record {
      name = name;
      label = ws.name;
      storage_class_name = "local-path";
      storage = storage;
    })
  ]

  unfoldable pub parse_resource_list : ResourceList → Option Quantities
  parse_resource_list rl = elim (parse_quantity rl.cpu) [
    | none ↦ none
    | some cpu ↦ elim (parse_quantity rl.memory) [
      | none ↦ none
      | some memory ↦ some (record { cpu = cpu; memory = memory })
    ]
  ]

unfoldable pub branch_database_env : String → WorkspaceTemplate → String → List EnvVar
branch_database_env namespace tmpl name = elim tmpl.database [
  | none ↦ []
  | some cluster_ref ↦
      let host = concat_texts (cluster_ref ∷ "-rw." ∷ namespace ∷ ".svc.cluster.local" ∷ []) in
      let cert = concat_texts (database_cert_mount_path ∷ "/tls.crt" ∷ []) in
      let key = concat_texts (database_cert_mount_path ∷ "/tls.key" ∷ []) in
      value "PGHOST" host
      ∷ value "PGPORT" "5432"
      ∷ value "PGDATABASE" name
      ∷ value "PGUSER" name
      ∷ value "PGSSLMODE" "require"
      ∷ value "PGSSLCERT" cert
      ∷ value "PGSSLKEY" key
      ∷ value "DATABASE_URL" (
          concat_texts (
            "postgresql://" ∷ name ∷ "@" ∷ host ∷ ":5432/" ∷ name ∷ "?sslmode=require&sslcert="
            ∷ cert ∷ "&sslkey=" ∷ key ∷ []))
      ∷ []
]

abbrev pub text_or_empty : Option String → String
text_or_empty none = ""
text_or_empty (some s) = s

unfoldable pub evacuation_env : WorkspaceTemplate → String → List EnvVar
evacuation_env tmpl name =
    value "WORKSPACE_ID" name
    ∷ value "EVACUATION_ENDPOINT" tmpl.evacuation.endpoint
    ∷ value "EVACUATION_REGION" tmpl.evacuation.region
    ∷ value "EVACUATION_BUCKET" tmpl.evacuation.bucket
    ∷ from_secret "EVACUATION_ACCESS_KEY" tmpl.evacuation.secret_ref "access-key"
    ∷ from_secret "EVACUATION_SECRET_KEY" tmpl.evacuation.secret_ref "secret-key"
    ∷ []

unfoldable pub git_credential_env : Workspace → List EnvVar
git_credential_env ws = elim ws.spec.git_credential_secret_ref [
  | none ↦ []
  | some secret_ref ↦
      from_secret "GIT_CREDENTIAL_TOKEN" secret_ref "token"
      ∷ value "GIT_ASKPASS" "/workspace/.git-askpass"
      ∷ []
]

unfoldable pub init_env : Workspace → WorkspaceTemplate → String → List EnvVar
unfolding evacuation_env git_credential_env
init_env ws tmpl name =
    value "WORKSPACE_DIR" "/workspace/repo"
    ∷ value "WORKSPACE_REPOSITORY" ws.spec.repository
    ∷ value "WORKSPACE_BRANCH" ws.spec.branch
    ∷ value "WORKSPACE_BASE_BRANCH" (text_or_empty ws.spec.base_branch)
    ∷ value "CLAUDE_CONFIG_DIR" "/workspace/.claude-config"
    ∷ value "WORKSPACE_CACHE_DIR" "/workspace/.cache"
    ∷ (evacuation_env tmpl name ++ git_credential_env ws)

-- The active model of the annotation, else the template's.
unfoldable pub model_env : Workspace → WorkspaceTemplate → List EnvVar
model_env ws tmpl =
    let model = if is_blank ws.active_model then tmpl.model else ws.active_model in
    if is_blank model then [] else value "ANTHROPIC_MODEL" model ∷ []

unfoldable pub workspace_env : String → Workspace → WorkspaceTemplate → String → List EnvVar
unfolding evacuation_env git_credential_env branch_database_env model_env
workspace_env namespace ws tmpl name =
    value "WORKSPACE_MOUNT" "/workspace"
    ∷ value "WORKSPACE_NAME" ws.name
    ∷ from_secret "CLAUDE_CODE_OAUTH_TOKEN" tmpl.auth "token"
    ∷ value "SSH_CA_PUBLIC_KEY" "/run/devplatform/ssh-ca/ca.pub"
    ∷ value "BLACKBOARD_CLAUDE_MD" "/run/devplatform/blackboard/CLAUDE.md"
    ∷ (evacuation_env tmpl name
        ++ (git_credential_env ws
            ++ (branch_database_env namespace tmpl name ++ model_env ws tmpl)))

-- The volumes and mounts of the database's certificate, where there is a database.
unfoldable pub database_volumes : WorkspaceTemplate → String → List Volume
database_volumes tmpl name = elim tmpl.database [
  | none ↦ []
  | some cluster_ref ↦
      record {
        name = "database-client-cert";
        source = secret (concat_texts (name ∷ "-client-cert" ∷ [])) false (some 384);
      }
      ∷ []
]

unfoldable pub database_mounts : WorkspaceTemplate → List VolumeMount
database_mounts tmpl = elim tmpl.database [
  | none ↦ []
  | some cluster_ref ↦
      record {
        name = "database-client-cert";
        mount_path = database_cert_mount_path;
        read_only = true;
      }
      ∷ []
]

unfoldable pub volumes : WorkspaceTemplate → String → List Volume
unfolding database_volumes
volumes tmpl name =
    record { name = "workspace"; source = claim name }
    ∷ record { name = "ssh-ca"; source = secret "devplatform-workspace-ssh-ca" true none }
    ∷ record { name = "blackboard"; source = config_map (claude_md_config_map_name name) true }
    ∷ database_volumes tmpl name

unfoldable pub volume_mounts : WorkspaceTemplate → List VolumeMount
unfolding database_mounts
volume_mounts tmpl =
    record { name = "workspace"; mount_path = "/workspace"; read_only = false }
    ∷ record { name = "ssh-ca"; mount_path = "/run/devplatform/ssh-ca"; read_only = true }
    ∷ record { name = "blackboard"; mount_path = "/run/devplatform/blackboard"; read_only = true }
    ∷ database_mounts tmpl

-- `script` is the text of `workspaceInitScript`, a shell script.
module _ (parse_quantity : String → Option ℕ) (script : String) (namespace : String) where
  abbrev pub container :
      WorkspaceTemplate
      → String
      → List String
      → List EnvVar
      → List (String × ℕ)
      → Quantities
      → Quantities
      → Container
  container tmpl name command env ports requests limits = record {
    name = name;
    image = tmpl.image;
    command = command;
    env = env;
    ports = ports;
    mounts = volume_mounts tmpl;
    requests = requests;
    limits = limits;
  }

  unfoldable pub database_init :
      Workspace → WorkspaceTemplate → String → Quantities → Quantities → List Container
  unfolding init_env branch_database_env volume_mounts
  database_init ws tmpl name requests limits = elim tmpl.database [
    | none ↦ []
    | some cluster_ref ↦
        container tmpl "db-bootstrap" (supervisor_binary_path ∷ "dbboot" ∷ [])
          (init_env ws tmpl name ++ branch_database_env namespace tmpl name) [] requests limits
        ∷ []
  ]

  unfoldable pub stateful_set_of :
      Workspace → WorkspaceTemplate → String → Quantities → Quantities → StatefulSetObject
  unfolding init_env workspace_env volumes volume_mounts database_init
  stateful_set_of ws tmpl name requests limits = record {
    name = name;
    label = ws.name;
    replicas = 1;
    service_name = name;
    node_name = tmpl.node_name;
    priority_class_name = tmpl.priority_class_name;
    init_containers =
        container tmpl "workspace-init" ("sh" ∷ "-c" ∷ script ∷ []) (init_env ws tmpl name) []
          requests limits
        ∷ database_init ws tmpl name requests limits;
    containers =
        container tmpl "workspace" (supervisor_binary_path ∷ [])
          (workspace_env namespace ws tmpl name) (("supervisor", 8787) ∷ ("ssh", 22) ∷ []) requests
          limits
        ∷ [];
    volumes = volumes tmpl name;
  }

  unfoldable pub build_stateful_set :
      Workspace → WorkspaceTemplate → String → Option StatefulSetObject
  unfolding parse_resource_list stateful_set_of
  build_stateful_set ws tmpl name =
      elim (parse_resource_list parse_quantity tmpl.resources.requests) [
        | none ↦ none
        | some requests ↦ elim (parse_resource_list parse_quantity tmpl.resources.limits) [
          | none ↦ none
          | some limits ↦ some (stateful_set_of ws tmpl name requests limits)
        ]
      ]
