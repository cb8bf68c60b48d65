-- ===== src/Controller/TaskQueue/Slots.antt =====
-- taskqueue.go: a pass never dispatches past the operator's limit, and not at all on a quota stop.
use parallel_workspace_serve.Prelude.{
  ℕ, ◌+◌, ◌≤◌, ◌<◌, max, false, List, [], ◌∷◌, keep_if, count_if, ◌≡◌, arith,
}
use parallel_workspace_serve.Controller.Types.{TaskRequest}
use parallel_workspace_serve.Prelude.Outcome.{Outcome, M, ok, err, final, ◌>>=◌}
use parallel_workspace_serve.Controller.Conditions.{ConditionOps}
use parallel_workspace_serve.Controller.Api.{Call, Trace, found, Env}
use parallel_workspace_serve.Controller.TaskQueue.State.{
  log, Queue, Settings, list_tasks, max_concurrent,
}
use parallel_workspace_serve.Controller.TaskQueue.Pass.{
  CtrlResult, Next, continue, finish, occupies, waits, sort_tasks, dispatch,
}
use parallel_workspace_serve.Controller.TaskQueue.Reconcile.{
  govern, go_ahead, serve_one, proceed, serve, reconcile,
}
use parallel_workspace_serve.Controller.TaskQueue.Frame.{
  is_dispatch, hold-keeps, hold_all-keeps, workspace_ready-keeps, observe-keeps, throttle-keeps,
}

abbrev pub dispatched : Trace → ℕ
dispatched t = count_if is_dispatch t

-- The dispatches asked for so far, whether the write failed or not.
abbrev pub dispatches : Queue → ℕ
dispatches q = dispatched q.trace

module _ (env : Env) (ops : ConditionOps) (r : Settings) where
  -- What a turn of the loop may do to the number of dispatches.
  abbrev Fair : ℕ → ℕ → Outcome Queue Next → Type 0
  Fair n d (ok (continue k) t) = (dispatches t + n ≡ d + k) × (k ≤ max (max_concurrent r) n)
  Fair n d (ok (finish c) t) = dispatches t ≡ d
  Fair n d (err e t) = dispatches t + n ≤ d + max (max_concurrent r) n

  abbrev Same : ℕ → Trace → Type 0
  Same d t = dispatched t ≡ d

  keep_Same : (d : ℕ) (c : Call) (t : Trace) → Same d t → is_dispatch c ≡ false → Same d (c ∷ t)
  keep_Same d c t e h = ground arith

  go_ahead-Fair :
      (task : TaskRequest) (n d : ℕ) (q : Queue)
      → n < max_concurrent r
      → dispatches q ≡ d
      → Fair n d (go_ahead env ops r task n q)
  unfolding go_ahead dispatch
  go_ahead-Fair task n d q h e = ground arith

  govern-Fair :
      (task : TaskRequest) (rest : List TaskRequest) (n d : ℕ) (q : Queue)
      → n < max_concurrent r
      → dispatches q ≡ d
      → Fair n d (govern env ops r task rest n q)
  unfolding govern
  govern-Fair task rest n d q h e = grind (
    arith,
    observe-keeps env ops r (Same d) (keep_Same d),
    throttle-keeps env ops r (Same d) (keep_Same d),
    hold_all-keeps env ops r (Same d) (keep_Same d),
    go_ahead-Fair,
  )

  serve_one-Fair :
      (task : TaskRequest) (rest : List TaskRequest) (n : ℕ) (q : Queue)
      → Fair n (dispatches q) (serve_one env ops r task rest n q)
  unfolding serve_one
  serve_one-Fair task rest n q =
      let d = dispatches q in
      grind (
        arith,
        workspace_ready-keeps env ops r (Same d) (keep_Same d),
        hold-keeps env ops r (Same d) (keep_Same d),
        govern-Fair,
      )

  proceed-slots :
      (loop : ℕ → M Queue CtrlResult) (n : ℕ) (q : Queue) (o : Outcome Queue Next)
      → ((k : ℕ) (t : Queue)
          → dispatches (final (loop k t)) + k ≤ dispatches t + max (max_concurrent r) k)
      → Fair n (dispatches q) o
      → dispatches (final (◌>>=◌ (λ _. o) (proceed env ops r loop) q)) + n
        ≤ dispatches q + max (max_concurrent r) n
  proceed-slots loop n q (ok (continue k) t) ih f = omega (arith, ih k t)
  proceed-slots loop n q (ok (finish c) t) ih f = omega arith
  proceed-slots loop n q (err e t) ih f = f

  serve-slots :
      (tasks : List TaskRequest) (n : ℕ) (q : Queue)
      → dispatches (final (serve env ops r tasks n q)) + n ≤ dispatches q + max (max_concurrent r) n
  unfolding serve
  serve-slots [] n q = omega arith
  serve-slots (task ∷ rest) n q =
      proceed-slots (serve env ops r rest) n q (serve_one env ops r task rest n q)
        (serve-slots rest) (serve_one-Fair task rest n q)

  -- In a pass over a listing, the tasks that occupy a slot when it is read and the tasks that the
  -- pass dispatches are together at most the limit (or as many as occupied one, if that was more),
  -- whatever the API server and the workspaces answer and wherever the pass fails.
  pub reconcile-slots :
      (q : Queue) (items : List TaskRequest)
      → env.list_tasks q.trace ≡ found items
      → dispatches (final (reconcile env ops r q)) + count_if occupies items
        ≤ dispatches q + max (max_concurrent r) (count_if occupies items)
  unfolding reconcile list_tasks
  reconcile-slots q items e = rw e (
      omega (
        arith,
        serve-slots (sort_tasks (keep_if waits items)) (count_if occupies items)
            (log Call.list_tasks q),
      ))
