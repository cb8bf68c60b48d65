-- ===== src/Controller/TaskQueue/Ready.antt =====
-- taskqueue.go: a task is dispatched only after its workspace was read and found Ready.
use parallel_workspace_serve.Prelude.{
  ℕ, String, Bool, true, false, List, [], ◌∷◌, ◌||◌, ◌&&◌, str_eq, eq_refl, if◌then◌else◌, ◌≡◌,
  arith,
}
use parallel_workspace_serve.Controller.Types.{Workspace, TaskRequest}
use parallel_workspace_serve.Prelude.Outcome.{Outcome, M, ok, err, final, ◌>>=◌}
use parallel_workspace_serve.Controller.Conditions.{ConditionOps}
use parallel_workspace_serve.Controller.Api.{Call, Trace, Read, found, not_found, failed, Env}
use parallel_workspace_serve.Controller.TaskQueue.State.{Queue, Settings, list_tasks}
use parallel_workspace_serve.Controller.TaskQueue.Pass.{
  CtrlResult, Next, continue, finish, is_ready, dispatch, workspace_ready,
}
use parallel_workspace_serve.Controller.TaskQueue.Reconcile.{
  govern, go_ahead, serve_one, proceed, serve, reconcile,
}
use parallel_workspace_serve.Controller.TaskQueue.Frame.{
  is_running, is_dispatch, hold-keeps, hold_all-keeps, workspace_ready-keeps, observe-keeps,
  throttle-keeps,
}

abbrev pub reads_ready : Read Workspace → Bool
reads_ready (found ws) = is_ready ws.status.phase
reads_ready (not_found e) = false
reads_ready (failed e) = false

module _ (env : Env) where
  -- Whether the workspace `ref` was read before and answered as Ready.
  abbrev pub seen_ready : String → Trace → Bool
  seen_ready ref [] = false
  seen_ready ref (Call.get_workspace name ∷ t) =
      (str_eq name ref && reads_ready (env.get_workspace t name)) || seen_ready ref t
  seen_ready ref (_ ∷ t) = seen_ready ref t

  -- Every dispatch in the trace follows such a read of its task's workspace.
  abbrev pub is_justified : Trace → Bool
  is_justified [] = true
  is_justified (Call.update_task_status task ∷ t) =
      (if is_running task.phase then seen_ready task.workspace_ref t else true) && is_justified t
  is_justified (_ ∷ t) = is_justified t

  abbrev Justified : Trace → Type 0
  Justified t = is_justified t ≡ true

  -- Justified, and the workspace of a task that is about to be dispatched was seen Ready.
  abbrev Cleared : String → Trace → Type 0
  Cleared ref t = (is_justified t ≡ true) × (seen_ready ref t ≡ true)

  keep_Justified : (c : Call) (t : Trace) → Justified t → is_dispatch c ≡ false → Justified (c ∷ t)
  keep_Justified (Call.update_task_status task) t j h = ground arith
  keep_Justified _ t j h = j

  keep_Cleared :
      (ref : String) (c : Call) (t : Trace)
      → Cleared ref t
      → is_dispatch c ≡ false
      → Cleared ref (c ∷ t)
  keep_Cleared ref (Call.update_task_status task) t j h = ground arith
  keep_Cleared ref (Call.get_workspace name) t j h = ground arith
  keep_Cleared ref _ t j h = j

module _ (env : Env) (ops : ConditionOps) (r : Settings) where
  go_ahead-Justified :
      (task : TaskRequest) (n : ℕ) (q : Queue)
      → Cleared env task.workspace_ref q.trace
      → Justified env (final (go_ahead env ops r task n q)).trace
  unfolding go_ahead dispatch
  go_ahead-Justified task n q c = ground arith

  govern-Justified :
      (task : TaskRequest) (rest : List TaskRequest) (n : ℕ) (q : Queue)
      → Cleared env task.workspace_ref q.trace
      → Justified env (final (govern env ops r task rest n q)).trace
  unfolding govern
  govern-Justified task rest n q c =
      let ref = task.workspace_ref in
      grind (
        arith,
        observe-keeps env ops r (Cleared env ref) (keep_Cleared env ref),
        throttle-keeps env ops r (Cleared env ref) (keep_Cleared env ref),
        hold_all-keeps env ops r (Justified env) (keep_Justified env),
        go_ahead-Justified,
      )

  -- A workspace that is reported ready was just seen so.
  workspace_ready-Cleared :
      (task : TaskRequest) (q t : Queue)
      → Justified env q.trace
      → workspace_ready env ops r task q ≡ ok true t
      → Cleared env task.workspace_ref t.trace
  unfolding workspace_ready
  workspace_ready-Cleared task q t j e = ground (arith, eq_refl task.workspace_ref)

  serve_one-Justified :
      (task : TaskRequest) (rest : List TaskRequest) (n : ℕ) (q : Queue)
      → Justified env q.trace
      → Justified env (final (serve_one env ops r task rest n q)).trace
  unfolding serve_one
  serve_one-Justified task rest n q j = grind (
    arith,
    hold-keeps env ops r (Justified env) (keep_Justified env),
    workspace_ready-keeps env ops r (Justified env) (keep_Justified env),
    workspace_ready-Cleared task q,
    govern-Justified,
  )

  proceed-Justified :
      (loop : ℕ → M Queue CtrlResult) (q : Queue) (o : Outcome Queue Next)
      → ((k : ℕ) (t : Queue) → Justified env t.trace → Justified env (final (loop k t)).trace)
      → Justified env (final o).trace
      → Justified env (final (◌>>=◌ (λ _. o) (proceed env ops r loop) q)).trace
  proceed-Justified loop q (ok (continue k) t) ih j = ih k t j
  proceed-Justified loop q (ok (finish c) t) ih j = j
  proceed-Justified loop q (err e t) ih j = j

  serve-Justified :
      (tasks : List TaskRequest) (n : ℕ) (q : Queue)
      → Justified env q.trace
      → Justified env (final (serve env ops r tasks n q)).trace
  unfolding serve
  serve-Justified [] n q j = j
  serve-Justified (task ∷ rest) n q j =
      proceed-Justified (serve env ops r rest) q (serve_one env ops r task rest n q)
        (serve-Justified rest) (serve_one-Justified task rest n q j)

  -- If every dispatch asked for so far followed a read that found its task's workspace Ready, so
  -- does every dispatch after one more pass, with the pass's own dispatches.
  pub reconcile-Justified :
      (q : Queue) → Justified env q.trace → Justified env (final (reconcile env ops r q)).trace
  unfolding reconcile list_tasks
  reconcile-Justified q j = grind (arith, serve-Justified)
