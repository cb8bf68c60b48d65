-- ===== src/Controller/Api.antt =====
-- The API server and the services that the reconcilers call, which are not part of the program.
-- Each call of them is appended to a trace, the newest call first, and an environment answers a
-- call by the calls before it: so the answers are arbitrary, may change between two calls, and
-- may fail at any of them.
use parallel_workspace_serve.Prelude.{ℕ, String, List, Option}
use parallel_workspace_serve.Controller.Types.{Workspace, TaskRequest, Message}
use parallel_workspace_serve.Controller.Quota.{UsageReading}

pub data Call : Type 0 where
  list_tasks : Call
  get_workspace : String → Call
  update_workspace : Workspace → Call
  update_task_status : TaskRequest → Call
  observe_usage : Workspace → Call
  notify : String → String → Message → Call
  read_clock : Call

abbrev pub Trace : Type 0
Trace = List Call

-- `not_found` is an error for which apierrors.IsNotFound holds.
pub data Read (A : Type 0) : Type 0 where
  found : A → Read A
  not_found : String → Read A
  failed : String → Read A

-- A write answers with its error, if it has one.
pub record Env : Type 0 where
  pub list_tasks : Trace → Read (List TaskRequest)
  pub get_workspace : Trace → String → Read Workspace
  pub update_workspace : Trace → Workspace → Option String
  pub update_task_status : Trace → TaskRequest → Option String
  pub observe_usage : Trace → Workspace → Read UsageReading
  pub clock : Trace → ℕ
