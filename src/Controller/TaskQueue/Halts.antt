-- ===== src/Controller/TaskQueue/Halts.antt =====
-- taskqueue.go: while every reading is a binding stop, a pass dispatches nothing.
use parallel_workspace_serve.Prelude.{
  ℕ, String, true, false, List, [], ◌∷◌, Option, none, some, ◌⊎◌, ◌≡◌, arith,
}
use parallel_workspace_serve.Controller.Types.{Workspace, TaskRequest, QuotaScope, Detail}
use parallel_workspace_serve.Prelude.Outcome.{Outcome, M, ok, err, final, ◌>>=◌}
use parallel_workspace_serve.Controller.Conditions.{ConditionOps}
use parallel_workspace_serve.Controller.Quota.{UsageReading, is_auth_error, exhausted_scope}
use parallel_workspace_serve.Controller.Api.{Call, Trace, found, Env}
use parallel_workspace_serve.Controller.TaskQueue.State.{
  Queue, Settings, list_tasks, now, record_quota_hit,
}
use parallel_workspace_serve.Controller.TaskQueue.Pass.{
  CtrlResult, Next, continue, finish, stop, observe,
}
use parallel_workspace_serve.Controller.TaskQueue.Reconcile.{
  throttle, throttle_spent, stop_for_quota, govern, serve_one, proceed, serve, reconcile,
}
use parallel_workspace_serve.Controller.TaskQueue.Frame.{
  is_dispatch, hold-keeps, hold_all-keeps, workspace_ready-keeps, observe-keeps, throttle-keeps,
}
use parallel_workspace_serve.Controller.TaskQueue.Slots.{dispatched, dispatches}

-- A reading that no switch of models escapes: the credential is refused, or an account-wide window
-- is spent.
abbrev pub Binding : ℕ → UsageReading → Type 0
Binding m u =
    (is_auth_error u.error_kind ≡ true)
    ⊎ (exhausted_scope u.snapshots m ≡ some QuotaScope.session)
    ⊎ (exhausted_scope u.snapshots m ≡ some QuotaScope.weekly)

abbrev Stops : Outcome Queue (Option String) → Type 0
Stops (ok (some why) t) = Unit
Stops (ok none t) = ⊥
Stops (err e t) = ⊥

module _ (env : Env) (ops : ConditionOps) (r : Settings) where
  stop-ok :
      (task : TaskRequest) (kind : String) (d : Detail) (q : Queue)
      → stop env ops r task kind d q ≡ ok tt (final (stop env ops r task kind d q))
  unfolding stop
  stop-ok task kind d q = ground arith

  throttle-Stops :
      (task : TaskRequest) (u : UsageReading) (q : Queue)
      → Binding r.min_remaining_percent u
      → Stops (throttle env ops r task u q)
  unfolding throttle throttle_spent stop_for_quota now record_quota_hit
  throttle-Stops task u q b = grind (arith, stop-ok)

  abbrev Same : ℕ → Trace → Type 0
  Same d t = dispatched t ≡ d

  keep_Same : (d : ℕ) (c : Call) (t : Trace) → Same d t → is_dispatch c ≡ false → Same d (c ∷ t)
  keep_Same d c t e h = ground arith

  -- A turn that goes on, returns or fails without a dispatch.
  abbrev Silent : ℕ → Outcome Queue Next → Type 0
  Silent d o = dispatches (final o) ≡ d

  proceed-Silent :
      (loop : ℕ → M Queue CtrlResult) (d : ℕ) (q : Queue) (o : Outcome Queue Next)
      → ((k : ℕ) (t : Queue) → dispatches t ≡ d → dispatches (final (loop k t)) ≡ d)
      → Silent d o
      → dispatches (final (◌>>=◌ (λ _. o) (proceed env ops r loop) q)) ≡ d
  proceed-Silent loop d q (ok (continue k) t) ih s = ih k t s
  proceed-Silent loop d q (ok (finish c) t) ih s = s
  proceed-Silent loop d q (err e t) ih s = s

module _ (env : Env) (ops : ConditionOps) (r : Settings) (workspace : Trace → String → Workspace)
    (usage : Trace → Workspace → UsageReading) (observed : r.has_usage_observer ≡ true)
    (reads : (t : Trace) (name : String) → env.get_workspace t name ≡ found (workspace t name))
    (usages : (t : Trace) (ws : Workspace) → env.observe_usage t ws ≡ found (usage t ws))
    (binding : (t : Trace) (ws : Workspace) → Binding r.min_remaining_percent (usage t ws)) where
  -- The reading that `observe` gets.
  abbrev reading_of : TaskRequest → Queue → UsageReading
  reading_of task q =
      usage (Call.get_workspace task.workspace_ref ∷ q.trace) (workspace q.trace task.workspace_ref)

  observe-reading :
      (task : TaskRequest) (q : Queue)
      → observe env ops r task q ≡ ok (some (reading_of task q)) (final (observe env ops r task q))
  unfolding observe
  observe-reading task q = ground (
    arith,
    observed,
    reads q.trace task.workspace_ref,
    usages (Call.get_workspace task.workspace_ref ∷ q.trace) (workspace q.trace task.workspace_ref),
  )

  govern-Silent :
      (task : TaskRequest) (rest : List TaskRequest) (n d : ℕ) (q : Queue)
      → dispatches q ≡ d
      → Silent env ops r d (govern env ops r task rest n q)
  unfolding govern
  govern-Silent task rest n d q e =
      let after = final (observe env ops r task q) in
      let u = reading_of task q in
      let b =
        binding (Call.get_workspace task.workspace_ref ∷ q.trace)
          (workspace q.trace task.workspace_ref) in
      let stops = throttle-Stops env ops r task u after b in
      grind (
        arith,
        observe-reading task q,
        observe-keeps env ops r (Same env ops r d) (keep_Same env ops r d) task q,
        throttle-keeps env ops r (Same env ops r d) (keep_Same env ops r d) task u after,
        hold_all-keeps env ops r (Same env ops r d) (keep_Same env ops r d),
      )

  serve_one-Silent :
      (task : TaskRequest) (rest : List TaskRequest) (n d : ℕ) (q : Queue)
      → dispatches q ≡ d
      → Silent env ops r d (serve_one env ops r task rest n q)
  unfolding serve_one
  serve_one-Silent task rest n d q e = grind (
    arith,
    workspace_ready-keeps env ops r (Same env ops r d) (keep_Same env ops r d),
    hold-keeps env ops r (Same env ops r d) (keep_Same env ops r d),
    govern-Silent,
  )

  serve-Silent :
      (tasks : List TaskRequest) (n d : ℕ) (q : Queue)
      → dispatches q ≡ d
      → dispatches (final (serve env ops r tasks n q)) ≡ d
  unfolding serve
  serve-Silent [] n d q e = e
  serve-Silent (task ∷ rest) n d q e =
      proceed-Silent env ops r (serve env ops r rest) d q (serve_one env ops r task rest n q)
        (λ k t. serve-Silent rest k d t) (serve_one-Silent task rest n d q e)

  -- Where the quota is observed, every workspace can be read and every reading is a refused
  -- credential or a spent account-wide window, a pass dispatches no task.
  pub reconcile_halts : (q : Queue) → dispatches (final (reconcile env ops r q)) ≡ dispatches q
  unfolding reconcile list_tasks
  reconcile_halts q = grind (arith, serve-Silent)
