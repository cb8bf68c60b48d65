-- ===== src/Controller/TaskQueue/Frame.antt =====
-- taskqueue.go: all that a pass does but dispatching keeps whatever the other calls keep.
use parallel_workspace_serve.Prelude.{String, Bool, true, false, List, [], ◌∷◌, ◌≡◌, arith}
use parallel_workspace_serve.Controller.Types.{TaskRequest, TaskPhase, QuotaScope, Detail, Message}
use parallel_workspace_serve.Prelude.Outcome.{final}
use parallel_workspace_serve.Controller.Conditions.{ConditionOps}
use parallel_workspace_serve.Controller.Quota.{UsageReading}
use parallel_workspace_serve.Controller.Api.{Call, Trace, Env}
use parallel_workspace_serve.Controller.TaskQueue.State.{
  Queue, Settings, now, record_quota_hit, resume,
}
use parallel_workspace_serve.Controller.TaskQueue.Pass.{
  hold, hold_all, workspace_ready, observe, switch_model, stop,
}
use parallel_workspace_serve.Controller.TaskQueue.Reconcile.{
  throttle, throttle_spent, stop_for_quota,
}

abbrev pub is_running : TaskPhase → Bool
is_running TaskPhase.running = true
is_running _ = false

-- A dispatch is a write of a task that is now running.
abbrev pub is_dispatch : Call → Bool
is_dispatch (Call.update_task_status task) = is_running task.phase
is_dispatch _ = false

module _ (env : Env) (ops : ConditionOps) (r : Settings) (P : Trace → Type 0)
    (keep : (c : Call) (t : Trace) → P t → is_dispatch c ≡ false → P (c ∷ t)) where
  pub hold-keeps :
      (task : TaskRequest) (reason : String) (m : Message) (q : Queue)
      → P q.trace
      → P (final (hold env ops r task reason m q)).trace
  unfolding hold
  hold-keeps task reason m q p = grind (arith, keep)

  pub hold_all-keeps :
      (tasks : List TaskRequest) (reason : String) (m : Message) (q : Queue)
      → P q.trace
      → P (final (hold_all env ops r tasks reason m q)).trace
  unfolding hold_all
  hold_all-keeps [] reason m q p = p
  hold_all-keeps (task ∷ tasks) reason m q p = ground (
    arith,
    hold-keeps task reason m q,
    hold_all-keeps tasks reason m (final (hold env ops r task reason m q)),
  )

  pub workspace_ready-keeps :
      (task : TaskRequest) (q : Queue)
      → P q.trace
      → P (final (workspace_ready env ops r task q)).trace
  unfolding workspace_ready
  workspace_ready-keeps task q p = grind (arith, keep)

  pub observe-keeps :
      (task : TaskRequest) (q : Queue) → P q.trace → P (final (observe env ops r task q)).trace
  unfolding observe
  observe-keeps task q p = grind (arith, keep)

  switch_model-keeps :
      (task : TaskRequest) (q : Queue) → P q.trace → P (final (switch_model env ops r task q)).trace
  unfolding switch_model
  switch_model-keeps task q p = grind (arith, keep)

  stop-keeps :
      (task : TaskRequest) (kind : String) (d : Detail) (q : Queue)
      → P q.trace
      → P (final (stop env ops r task kind d q)).trace
  unfolding stop
  stop-keeps task kind d q p = grind (arith, keep)

  stop_for_quota-keeps :
      (task : TaskRequest) (scope : QuotaScope) (q : Queue)
      → P q.trace
      → P (final (stop_for_quota env ops r task scope q)).trace
  unfolding stop_for_quota
  stop_for_quota-keeps task scope q p = grind (arith, stop-keeps)

  throttle_spent-keeps :
      (task : TaskRequest) (scope : QuotaScope) (q : Queue)
      → P q.trace
      → P (final (throttle_spent env ops r task scope q)).trace
  unfolding throttle_spent now record_quota_hit resume
  throttle_spent-keeps task scope q p =
      grind (arith, keep, stop_for_quota-keeps, switch_model-keeps)

  pub throttle-keeps :
      (task : TaskRequest) (u : UsageReading) (q : Queue)
      → P q.trace
      → P (final (throttle env ops r task u q)).trace
  unfolding throttle resume
  throttle-keeps task u q p = grind (arith, stop-keeps, throttle_spent-keeps)
