-- ===== src/Controller/TaskQueue/Reconcile.antt =====
-- taskqueue.go: `throttle`, the loop of `Reconcile`, and `Stats`.
use parallel_workspace_serve.Prelude.{
  ℕ, ◌+◌, String, true, false, List, [], ◌∷◌, Option, none, some, leb, str_eq, keep_if, count_if,
}
use parallel_workspace_serve.Controller.Types.{TaskRequest, QuotaScope, Detail, Message}
use parallel_workspace_serve.Prelude.Outcome.{M, ok, return, fail, ◌>>=◌, ◌>>◌}
use parallel_workspace_serve.Controller.Conditions.{ConditionOps}
use parallel_workspace_serve.Controller.Quota.{UsageReading, exhausted_scope, is_auth_error}
use parallel_workspace_serve.Controller.Api.{found, not_found, failed, Env}
use parallel_workspace_serve.Controller.TaskQueue.State.{
  Queue, Settings, QuotaHit, list_tasks, now, record_quota_hit, resume, max_concurrent,
}
use parallel_workspace_serve.Controller.TaskQueue.Pass.{
  CtrlResult, Next, continue, finish, quota_recheck_interval, occupies, waits, sort_tasks,
  is_model_scope, dispatch, hold, hold_all, workspace_ready, observe, switch_model, stop,
}

abbrev pub event_quota_exhausted : String
event_quota_exhausted = "QuotaExhausted"

abbrev pub event_auth_error : String
event_auth_error = "AuthError"

pub record QueueStats : Type 0 where
  pub queued : ℕ
  pub running : ℕ
  pub recent_quota_hits : List QuotaHit

module _ (env : Env) (ops : ConditionOps) (r : Settings) where
  abbrev pub resumed : M Queue (Option String)
  resumed q = ok none (resume q)

  unfoldable pub stop_for_quota : TaskRequest → QuotaScope → M Queue (Option String)
  stop_for_quota task scope =
      stop env ops r task event_quota_exhausted (Detail.quota_window_spent scope)
      >> return (some "QuotaExhausted")

  -- A spent window: a model window is escaped by the next model, if the chain has one.
  unfoldable pub throttle_spent : TaskRequest → QuotaScope → M Queue (Option String)
  unfolding stop_for_quota
  throttle_spent task scope = do
    at ← now env
    elim (is_model_scope scope) [
      | true ↦ (λ q.
          (switch_model env ops r task >>= λ next. elim (str_eq next "") [
            | true ↦ stop_for_quota task scope
            | false ↦ resumed
          ])
            (record_quota_hit scope at q))
      | false ↦ λ q. stop_for_quota task scope (record_quota_hit scope at q)
    ]

  -- The reason to hold the queue, `none` for the empty string.
  unfoldable pub throttle : TaskRequest → UsageReading → M Queue (Option String)
  unfolding throttle_spent
  throttle task reading = elim (is_auth_error reading.error_kind) [
    | true ↦
        stop env ops r task event_auth_error (Detail.submission_stopped reading.error_kind)
        >> return (some "AuthError")
    | false ↦ elim (exhausted_scope reading.snapshots r.min_remaining_percent) [
      | none ↦ resumed
      | some scope ↦ throttle_spent task scope
    ]
  ]

  abbrev pub stopped_of : M Queue Detail
  stopped_of q = ok q.stopped q

  -- Dispatch of one task, after its reading let it go ahead.
  unfoldable pub go_ahead : TaskRequest → ℕ → M Queue Next
  go_ahead task running = dispatch env ops r task >> return (continue (running + 1))

  unfoldable pub govern : TaskRequest → List TaskRequest → ℕ → M Queue Next
  unfolding go_ahead
  govern task rest running = do
    reading ← observe env ops r task
    elim reading [
      | none ↦ go_ahead task running
      | some u ↦ throttle task u >>= λ reason. elim reason [
        | none ↦ go_ahead task running
        | some why ↦ (do
          detail ← stopped_of
          hold_all env ops r (task ∷ rest) why (Message.stopped detail)
          return (finish (CtrlResult.requeue_after quota_recheck_interval)))
      ]
    ]

  -- The body of the loop over the queue; `rest` are the tasks behind this one.
  unfoldable pub serve_one : TaskRequest → List TaskRequest → ℕ → M Queue Next
  unfolding govern
  serve_one task rest running = elim (leb (max_concurrent r) running) [
    | true ↦
        hold env ops r task "ConcurrencyLimit" (Message.slots_in_use running (max_concurrent r))
        >> return (continue running)
    | false ↦ workspace_ready env ops r task >>= λ ready. elim ready [
      | false ↦
          hold env ops r task "WorkspaceNotReady" (Message.workspace_not_ready task.workspace_ref)
          >> return (continue running)
      | true ↦ govern task rest running
    ]
  ]

  -- The rest of the loop, as far as the turn lets it run.
  abbrev pub proceed : (ℕ → M Queue CtrlResult) → Next → M Queue CtrlResult
  proceed loop (continue n) = loop n
  proceed loop (finish result) = return result

  unfoldable pub serve : List TaskRequest → ℕ → M Queue CtrlResult
  serve [] running = return CtrlResult.done
  serve (task ∷ rest) running = serve_one task rest running >>= proceed (serve rest)

  unfoldable pub reconcile : M Queue CtrlResult
  unfolding list_tasks
  reconcile = list_tasks env >>= λ read. elim read [
    | found items ↦ serve (sort_tasks (keep_if waits items)) (count_if occupies items)
    | not_found e ↦ fail e
    | failed e ↦ fail e
  ]

  unfoldable pub stats : M Queue QueueStats
  unfolding list_tasks
  stats = list_tasks env >>= λ read. elim read [
    | found items ↦ λ q.
        ok
          (record {
            queued = count_if waits items;
            running = count_if occupies items;
            recent_quota_hits = q.recent_quota_hits;
          })
          q
    | not_found e ↦ fail e
    | failed e ↦ fail e
  ]
