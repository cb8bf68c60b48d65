-- ===== src/Controller/TaskQueue/Fifo.antt =====
-- taskqueue.go: the dispatches of a pass follow the age of the tasks.
use mathlib.Core.List.{Perm, Sublistᴰ}
use parallel_workspace_serve.Prelude.{
  ℕ, String, false, List, [], ◌∷◌, map, ◌≡◌, arith, refl, keep_if, count_if, ◌⊎◌, inl, inr,
  if◌then◌else◌,
}
use parallel_workspace_serve.Controller.Types.{TaskRequest}
use parallel_workspace_serve.Prelude.Outcome.{Outcome, M, ok, err, final, ◌>>=◌}
use parallel_workspace_serve.Controller.Conditions.{ConditionOps}
use parallel_workspace_serve.Controller.Api.{Call, Trace, found, Env}
use parallel_workspace_serve.Controller.TaskQueue.State.{log, Queue, Settings, list_tasks}
use parallel_workspace_serve.Controller.TaskQueue.Pass.{
  CtrlResult, Next, continue, finish, occupies, waits, sort_tasks, dispatch,
}
use parallel_workspace_serve.Controller.TaskQueue.Reconcile.{
  govern, go_ahead, serve_one, proceed, serve, reconcile,
}
use parallel_workspace_serve.Controller.TaskQueue.Frame.{
  is_running, is_dispatch, hold-keeps, hold_all-keeps, workspace_ready-keeps, observe-keeps,
  throttle-keeps,
}
use parallel_workspace_serve.Controller.TaskQueue.Order.{
  IsOldestFirst, sort_tasks-IsSorted, sorted-IsOldestFirst, sort_tasks-perm,
}

-- The names of the tasks dispatched so far, the newest first.
abbrev pub dispatch_names : Trace → List String
dispatch_names [] = []
dispatch_names (Call.update_task_status task ∷ t) =
    if is_running task.phase then task.name ∷ dispatch_names t else dispatch_names t
dispatch_names (_ ∷ t) = dispatch_names t

-- The names `picked`, the first of them dispatched first, on top of those before.
abbrev pub onto : List String → List String → List String
onto [] names = names
onto (x ∷ picked) names = onto picked (x ∷ names)

abbrev pub names_of : List TaskRequest → List String
names_of tasks = map (λ (task : TaskRequest). task.name) tasks

module _ (env : Env) (ops : ConditionOps) (r : Settings) where
  abbrev Named : List String → Trace → Type 0
  Named ns t = dispatch_names t ≡ ns

  keep_Named :
      (ns : List String) (c : Call) (t : Trace)
      → Named ns t
      → is_dispatch c ≡ false
      → Named ns (c ∷ t)
  keep_Named ns (Call.update_task_status task) t e h = ground arith
  keep_Named ns _ t e h = e

  -- A turn dispatches its task or none.
  abbrev One : String → List String → Outcome Queue Next → Type 0
  One name ns o =
      (dispatch_names (final o).trace ≡ ns) ⊎ (dispatch_names (final o).trace ≡ name ∷ ns)

  go_ahead-One :
      (task : TaskRequest) (n : ℕ) (ns : List String) (q : Queue)
      → Named ns q.trace
      → One task.name ns (go_ahead env ops r task n q)
  unfolding go_ahead dispatch
  go_ahead-One task n ns q e = ground arith

  govern-One :
      (task : TaskRequest) (rest : List TaskRequest) (n : ℕ) (ns : List String) (q : Queue)
      → Named ns q.trace
      → One task.name ns (govern env ops r task rest n q)
  unfolding govern
  govern-One task rest n ns q e = grind (
    arith,
    observe-keeps env ops r (Named ns) (keep_Named ns),
    throttle-keeps env ops r (Named ns) (keep_Named ns),
    hold_all-keeps env ops r (Named ns) (keep_Named ns),
    go_ahead-One,
  )

  serve_one-One :
      (task : TaskRequest) (rest : List TaskRequest) (n : ℕ) (ns : List String) (q : Queue)
      → Named ns q.trace
      → One task.name ns (serve_one env ops r task rest n q)
  unfolding serve_one
  serve_one-One task rest n ns q e = grind (
    arith,
    workspace_ready-keeps env ops r (Named ns) (keep_Named ns),
    hold-keeps env ops r (Named ns) (keep_Named ns),
    govern-One,
  )

  -- The names dispatched beyond `ns` are a part of the queue's names, in the queue's order.
  abbrev pub InOrder : List TaskRequest → List String → Queue → Type 0
  InOrder tasks ns q =
      (picked : List String) × Sublistᴰ picked (names_of tasks)
      × (dispatch_names q.trace ≡ onto picked ns)

  none-InOrder :
      (tasks : List TaskRequest) (ns : List String) (q : Queue)
      → Named ns q.trace
      → InOrder tasks ns q
  none-InOrder [] ns q e = ([], Sublistᴰ.slnil, e)
  none-InOrder (task ∷ tasks) ns q e =
      let (picked, s, p) = none-InOrder tasks ns q e in (picked, Sublistᴰ.cons s, p)

  skip-InOrder :
      (task : TaskRequest) (tasks : List TaskRequest) (ns : List String) (q : Queue)
      → InOrder tasks ns q
      → InOrder (task ∷ tasks) ns q
  skip-InOrder task tasks ns q (picked, s, p) = (picked, Sublistᴰ.cons s, p)

  pick-InOrder :
      (task : TaskRequest) (tasks : List TaskRequest) (ns : List String) (q : Queue)
      → InOrder tasks (task.name ∷ ns) q
      → InOrder (task ∷ tasks) ns q
  pick-InOrder task tasks ns q (picked, s, p) = (task.name ∷ picked, Sublistᴰ.cons-cons refl s, p)

  proceed-InOrder :
      (loop : ℕ → M Queue CtrlResult) (task : TaskRequest) (tasks : List TaskRequest)
      (ns : List String) (q : Queue) (o : Outcome Queue Next)
      → ((k : ℕ) (ms : List String) (t : Queue)
          → Named ms t.trace
          → InOrder tasks ms (final (loop k t)))
      → One task.name ns o
      → InOrder (task ∷ tasks) ns (final (◌>>=◌ (λ _. o) (proceed env ops r loop) q))
  proceed-InOrder loop task tasks ns q (ok (continue k) t) ih (inl e) =
      skip-InOrder task tasks ns (final (loop k t)) (ih k ns t e)
  proceed-InOrder loop task tasks ns q (ok (continue k) t) ih (inr e) =
      pick-InOrder task tasks ns (final (loop k t)) (ih k (task.name ∷ ns) t e)
  proceed-InOrder loop task tasks ns q (ok (finish c) t) ih (inl e) =
      none-InOrder (task ∷ tasks) ns t e
  proceed-InOrder loop task tasks ns q (ok (finish c) t) ih (inr e) =
      pick-InOrder task tasks ns t (none-InOrder tasks (task.name ∷ ns) t e)
  proceed-InOrder loop task tasks ns q (err x t) ih (inl e) = none-InOrder (task ∷ tasks) ns t e
  proceed-InOrder loop task tasks ns q (err x t) ih (inr e) =
      pick-InOrder task tasks ns t (none-InOrder tasks (task.name ∷ ns) t e)

  serve-InOrder :
      (tasks : List TaskRequest) (n : ℕ) (ns : List String) (q : Queue)
      → Named ns q.trace
      → InOrder tasks ns (final (serve env ops r tasks n q))
  unfolding serve
  serve-InOrder [] n ns q e = none-InOrder [] ns q e
  serve-InOrder (task ∷ rest) n ns q e =
      proceed-InOrder (serve env ops r rest) task rest ns q (serve_one env ops r task rest n q)
        (serve-InOrder rest) (serve_one-One task rest n ns q e)

  -- The tasks that a pass dispatches, in the order in which it does, are a part of the waiting
  -- tasks of the listing as sorted: each created earlier than those behind it, or at the same time
  -- and under a name that is not behind theirs; none lost and none added.
  -- Nothing else is dispatched.
  pub reconcile_fifo :
      (q : Queue) (items : List TaskRequest)
      → env.list_tasks q.trace ≡ found items
      → let queue = sort_tasks (keep_if waits items) in
        InOrder queue (dispatch_names q.trace) (final (reconcile env ops r q))
        × IsOldestFirst queue
        × Perm queue (keep_if waits items)
  unfolding reconcile list_tasks
  reconcile_fifo q items e =
      let waiting = keep_if waits items in
      rw e (
        serve-InOrder (sort_tasks waiting) (count_if occupies items) (dispatch_names q.trace)
            (log Call.list_tasks q) refl,
        sorted-IsOldestFirst (sort_tasks waiting) (sort_tasks-IsSorted waiting),
        sort_tasks-perm waiting,
      )
