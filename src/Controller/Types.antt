-- ===== src/Controller/Types.antt =====
-- controller/api/v1alpha1: the objects that the control plane keeps in the API server.
-- A time is a number of seconds, `none` the zero time. A map that holds one annotation of interest
-- is that annotation, "" where it is missing.
use parallel_workspace_serve.Prelude.{ℕ, String, Bool, List, Option}

-- `unset` is the empty string.
pub data WorkspacePhase : Type 0 where
  unset provisioning ready suspended failed terminating : WorkspacePhase

pub data DesiredPhase : Type 0 where
  unset ready suspended : DesiredPhase

pub data TaskPhase : Type 0 where
  unset pending running verifying human_intervention completed failed : TaskPhase

pub data QuotaScope : Type 0 where
  model session weekly : QuotaScope

-- The text that a dispatch stop is announced by. "" is `empty`; the two formats of taskqueue.go
-- print different texts for different arguments, so texts are compared by what they print.
pub data Detail : Type 0 where
  empty : Detail
  submission_stopped : String → Detail
  quota_window_spent : QuotaScope → Detail

pub record EvacuationSnapshot : Type 0 where
  pub workspace_id : String
  pub branch : String
  pub head_commit : String
  pub bundle_key : String
  pub dirty_archive_key : String
  pub captured_at : Option ℕ
  pub size_bytes : ℕ

-- Whether the work on a node survives it, as `evacuationStatusDetail` tells.
pub data EvacuationDetail : Type 0 where
  no_snapshot : EvacuationDetail
  -- The time, if it was recorded, and the key of the bundle.
  evacuated_to : Option ℕ → String → EvacuationDetail

-- A message of a condition or a notification, by its format and its arguments.
pub data Message : Type 0 where
  text : String → Message
  slots_in_use : ℕ → ℕ → Message
  workspace_not_ready : String → Message
  stopped : Detail → Message
  node_ready : String → Message
  node_unavailable : String → EvacuationDetail → Message
  captured_to : String → Message
  already_provisioned : String → String → String → Message
  provisioning_timeout : String → String → Message
  image_not_staged : String → String → Message
  no_quota_left : String → Message
  disk_budget_exceeded : String → ℕ → ℕ → Message
  -- The files that other branches change too, each with its branches.
  file_conflict : List (String × List String) → Message

pub data ConditionStatus : Type 0 where
  condition_true condition_false condition_unknown : ConditionStatus

-- metav1.Condition.
pub record Condition : Type 0 where
  pub type : String
  pub status : ConditionStatus
  pub reason : String
  pub message : Message
  pub last_transition_time : Option ℕ

pub record BlackboardEntry : Type 0 where
  pub branch : String
  pub summary : String
  pub changed_files : List String
  pub public_interfaces : List String
  pub active : Bool
  pub updated_at : Option ℕ

pub record WorkspaceUrls : Type 0 where
  pub preview : String
  pub session : String
  pub report : String

pub record WorkspaceSpec : Type 0 where
  pub repository : String
  pub branch : String
  pub base_branch : Option String
  pub template_ref : String
  pub git_credential_secret_ref : Option String
  pub desired_phase : DesiredPhase

pub record WorkspaceStatus : Type 0 where
  pub phase : WorkspacePhase
  pub workspace_id : String
  pub urls : WorkspaceUrls
  pub session_id : String
  pub last_activity_at : Option ℕ
  pub last_evacuation : Option EvacuationSnapshot
  pub blackboard : Option BlackboardEntry
  pub conditions : List Condition

pub record Workspace : Type 0 where
  pub name : String
  pub creation_timestamp : ℕ
  -- Whether the deletion timestamp is set.
  pub deleting : Bool
  pub finalizers : List String
  -- The annotation workspace.tom1022.github.io/active-model.
  pub active_model : String
  -- The annotation workspace.tom1022.github.io/browser-connections as strconv.Atoi reads it, `none`
  -- where that fails or gives a negative number.
  pub browser_connections : Option ℕ
  -- The annotations workspace.tom1022.github.io/summary and public-interfaces.
  pub summary : String
  pub public_interfaces : String
  pub spec : WorkspaceSpec
  pub status : WorkspaceStatus

pub record TaskRequest : Type 0 where
  pub name : String
  pub creation_timestamp : ℕ
  pub deleting : Bool
  pub workspace_ref : String
  pub phase : TaskPhase
  pub conditions : List Condition

-- ctrl.Result: whether the pass asks to run again after some seconds.
pub data CtrlResult : Type 0 where
  done : CtrlResult
  requeue_after : ℕ → CtrlResult
