-- ===== src/Controller/TaskQueue/Examples.antt =====
-- taskqueue.go and quota.go: tests on small queues, and the theorems at concrete inputs.
use mathlib.Core.List.{Perm}
use parallel_workspace_serve.Prelude.{
  ℕ, ◌+◌, ◌≤◌, max, String, true, false, List, [], ◌∷◌, none, some, refl, ◌≡◌, count_if, keep_if,
  inl, inr,
}
use parallel_workspace_serve.Controller.Types.{
  Workspace, WorkspaceStatus, WorkspacePhase, DesiredPhase, TaskRequest, TaskPhase, QuotaScope,
  Detail,
}
use parallel_workspace_serve.Prelude.Outcome.{final}
use parallel_workspace_serve.Controller.Conditions.{ConditionOps}
use parallel_workspace_serve.Controller.Quota.{UsageReading, exhausted_scope, is_auth_error}
use parallel_workspace_serve.Controller.Api.{found, Env}
use parallel_workspace_serve.Controller.TaskQueue.State.{Queue, Settings, max_concurrent, resume}
use parallel_workspace_serve.Controller.TaskQueue.Pass.{
  occupies, waits, sort_tasks, insert_task, is_older, workspace_ready, observe, dispatch, hold,
}
use parallel_workspace_serve.Controller.TaskQueue.Reconcile.{
  reconcile, serve, serve_one, govern, go_ahead, throttle,
}
use parallel_workspace_serve.Controller.TaskQueue.Slots.{dispatches, reconcile-slots}
use parallel_workspace_serve.Controller.TaskQueue.Ready.{is_justified, reconcile-Justified}
use parallel_workspace_serve.Controller.TaskQueue.Order.{IsOldestFirst}
use parallel_workspace_serve.Controller.TaskQueue.Fifo.{dispatch_names, InOrder, reconcile_fifo}
use parallel_workspace_serve.Controller.TaskQueue.Halts.{reconcile_halts}

abbrev ready_status : WorkspaceStatus
ready_status = record {
  phase = WorkspacePhase.ready;
  workspace_id = "feature";
  urls = record { preview = ""; session = ""; report = "" };
  session_id = "feature-session";
  last_activity_at = none;
  last_evacuation = none;
  blackboard = none;
  conditions = [];
}

abbrev ready_workspace : String → Workspace
ready_workspace name = record {
  name = name;
  creation_timestamp = 0;
  deleting = false;
  finalizers = [];
  active_model = "";
  browser_connections = none;
  summary = "";
  public_interfaces = "";
  spec = record {
    repository = "git";
    branch = name;
    base_branch = none;
    template_ref = "default";
    git_credential_secret_ref = none;
    desired_phase = DesiredPhase.unset;
  };
  status = ready_status;
}

abbrev task_at : ℕ → String → TaskPhase → TaskRequest
task_at at name phase = record {
  name = name;
  creation_timestamp = at;
  deleting = false;
  workspace_ref = "ws";
  phase = phase;
  conditions = [];
}

abbrev items : List TaskRequest
items =
    task_at 9 "late" TaskPhase.unset
    ∷ task_at 3 "early" TaskPhase.pending
    ∷ task_at 1 "busy" TaskPhase.verifying
    ∷ []

abbrev spent_session : UsageReading
spent_session = record {
  snapshots =
      record {
        kind = "session";
        group = "session";
        remaining_percent = 0;
        resets_at = "";
        model = "";
        active = true;
      }
      ∷ [];
  error_kind = "";
}

abbrev fresh_reading : UsageReading
fresh_reading = record { snapshots = []; error_kind = "" }

abbrev env_with : UsageReading → Env
env_with reading = record {
  list_tasks = λ t. found items;
  get_workspace = λ t name. found (ready_workspace name);
  update_workspace = λ t ws. none;
  update_task_status = λ t task. none;
  observe_usage = λ t ws. found reading;
  clock = λ t. 100;
}

-- Conditions that are replaced whole.
abbrev ops : ConditionOps
ops = record {
  set_status_condition = λ at conditions c. (c ∷ conditions, true);
  find_status_condition = λ conditions type. none;
  remove_status_condition = λ conditions type. conditions;
}

abbrev settings : Settings
settings = record {
  max_concurrent = 2;
  has_usage_observer = true;
  min_remaining_percent = 5;
  model_fallbacks = "opus" ∷ "sonnet" ∷ "haiku" ∷ [];
  has_notify = true;
}

abbrev fresh_queue : Queue
fresh_queue = record { stopped = Detail.empty; recent_quota_hits = []; trace = [] }

-- Of two waiting tasks the older one takes the one slot that is left.
pass_test :
    dispatch_names (final (reconcile (env_with fresh_reading) ops settings fresh_queue)).trace
    ≡ "early" ∷ []
unfolding reconcile serve sort_tasks insert_task is_older serve_one govern go_ahead max_concurrent
    workspace_ready observe throttle is_auth_error exhausted_scope dispatch hold resume
pass_test = refl

reconcile-slots_example :
    dispatches (final (reconcile (env_with fresh_reading) ops settings fresh_queue))
      + count_if occupies items
    ≤ dispatches fresh_queue + max (max_concurrent settings) (count_if occupies items)
reconcile-slots_example =
    reconcile-slots (env_with fresh_reading) ops settings fresh_queue items refl

reconcile-Justified_example :
    is_justified
      (env_with fresh_reading)
      (final (reconcile (env_with fresh_reading) ops settings fresh_queue)).trace
    ≡ true
reconcile-Justified_example =
    reconcile-Justified (env_with fresh_reading) ops settings fresh_queue refl

reconcile_fifo_example :
    InOrder
      (env_with fresh_reading)
      ops
      settings
      (sort_tasks (keep_if waits items))
      []
      (final (reconcile (env_with fresh_reading) ops settings fresh_queue))
    × IsOldestFirst (sort_tasks (keep_if waits items))
    × Perm (sort_tasks (keep_if waits items)) (keep_if waits items)
reconcile_fifo_example = reconcile_fifo (env_with fresh_reading) ops settings fresh_queue items refl

reconcile_halts_example :
    dispatches (final (reconcile (env_with spent_session) ops settings fresh_queue)) ≡ 0
unfolding exhausted_scope
reconcile_halts_example =
    reconcile_halts (env_with spent_session) ops settings (λ t name. ready_workspace name)
      (λ t ws. spent_session) refl (λ t name. refl) (λ t ws. refl) (λ t ws. inr (inl spent))
      fresh_queue
  where
    spent : exhausted_scope spent_session.snapshots 5 ≡ some QuotaScope.session
    spent = refl
