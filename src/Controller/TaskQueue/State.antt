-- ===== src/Controller/TaskQueue/State.antt =====
-- taskqueue.go: the reconciler's settings and in-process state, and its calls of the API server.
use parallel_workspace_serve.Prelude.{
  ℕ, String, Bool, List, [], ◌∷◌, Option, ◌-◌, ltb, if◌then◌else◌, length, drop, ◌++◌,
}
use parallel_workspace_serve.Controller.Types.{Workspace, TaskRequest, QuotaScope, Detail, Message}
use parallel_workspace_serve.Prelude.Outcome.{M, ok}
use parallel_workspace_serve.Controller.Quota.{UsageReading}
use parallel_workspace_serve.Controller.Api.{Call, Trace, Read, Env}

pub record QuotaHit : Type 0 where
  pub scope : QuotaScope
  pub at : ℕ

-- The fields that the operator sets; `max_concurrent` is 0 where the source's is not positive.
pub record Settings : Type 0 where
  pub max_concurrent : ℕ
  pub has_usage_observer : Bool
  pub min_remaining_percent : ℕ
  pub model_fallbacks : List String
  pub has_notify : Bool

-- The reconciler between two calls, with the calls that it has made.
pub record Queue : Type 0 where
  pub stopped : Detail
  pub recent_quota_hits : List QuotaHit
  pub trace : Trace

abbrev pub default_max_concurrent_tasks : ℕ
default_max_concurrent_tasks = 2

abbrev pub max_recent_quota_hits : ℕ
max_recent_quota_hits = 20

unfoldable pub max_concurrent : Settings → ℕ
max_concurrent r = if ltb 0 r.max_concurrent then r.max_concurrent else default_max_concurrent_tasks

-- Each call answers by the trace so far, and joins the trace.
abbrev pub log : Call → Queue → Queue
log c q = record q { trace = c ∷ q.trace }

unfoldable pub list_tasks : Env → M Queue (Read (List TaskRequest))
list_tasks env q = ok (env.list_tasks q.trace) (log Call.list_tasks q)

unfoldable pub get_workspace : Env → String → M Queue (Read Workspace)
get_workspace env name q = ok (env.get_workspace q.trace name) (log (Call.get_workspace name) q)

unfoldable pub update_workspace : Env → Workspace → M Queue (Option String)
update_workspace env ws q = ok (env.update_workspace q.trace ws) (log (Call.update_workspace ws) q)

unfoldable pub update_task_status : Env → TaskRequest → M Queue (Option String)
update_task_status env task q =
    ok (env.update_task_status q.trace task) (log (Call.update_task_status task) q)

unfoldable pub observe_usage : Env → Workspace → M Queue (Read UsageReading)
observe_usage env ws q = ok (env.observe_usage q.trace ws) (log (Call.observe_usage ws) q)

unfoldable pub notify : String → String → Message → M Queue (Unit {0})
notify name kind detail q = ok tt (log (Call.notify name kind detail) q)

unfoldable pub now : Env → M Queue ℕ
now env q = ok (env.clock q.trace) (log Call.read_clock q)

-- `recordQuotaHit`: the newest entry is the last, and at most twenty are kept.
unfoldable pub record_quota_hit : QuotaScope → ℕ → Queue → Queue
record_quota_hit scope at q =
    let hits = q.recent_quota_hits ++ record { scope = scope; at = at } ∷ [] in
    record q {
      recent_quota_hits =
          if ltb max_recent_quota_hits (length hits)
          then drop (length hits - max_recent_quota_hits) hits
          else hits;
    }

unfoldable pub resume : Queue → Queue
resume q = record q { stopped = Detail.empty }
