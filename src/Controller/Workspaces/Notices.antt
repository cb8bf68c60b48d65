-- ===== src/Controller/Workspaces/Notices.antt =====
-- lifecycle.go: a node that is lost is reported once, and a duplicate's destroy touches nothing.
use parallel_workspace_serve.Prelude.{
  ℕ, zero, suc, ◌+◌, ◌≤◌, String, Bool, true, false, List, none, some, ◌||◌, str_eq, count_if, ◌≡◌,
  ◌⊎◌, inl, inr, arith, refl,
}
use parallel_workspace_serve.Prelude.Outcome.{Outcome, M, ok, err, final, return, ◌>>=◌}
use parallel_workspace_serve.Controller.Types.{Workspace, Condition}
use parallel_workspace_serve.Controller.Conditions.{ConditionOps}
use parallel_workspace_serve.Controller.Api.{Read, found, not_found, failed}
use parallel_workspace_serve.Controller.Workspaces.Cluster.{Node, Call, Trace, Cluster, Setup}
use parallel_workspace_serve.Controller.Workspaces.Calls.{
  now, update_status, update_workspace, notify,
}
use parallel_workspace_serve.Controller.Workspaces.Evacuation.{
  set_condition, remove_evacuation_finalizer,
}
use parallel_workspace_serve.Controller.Workspaces.Lifecycle.{
  condition_node_available, condition_duplicate_of_existing, has_status, is_true, is_false,
  node_available, node_returned, node_lost, check_node_available,
}
use parallel_workspace_serve.Controller.Workspaces.Passes.{
  deactivate_blackboard, reconcile_terminating,
}

abbrev pub is_notice : Call → Bool
is_notice (Call.notify name kind detail) = true
is_notice _ = false

abbrev pub notices : Trace → ℕ
notices t = count_if is_notice t

abbrev pub reports_ready : Read Node → Bool
reports_ready (found node) = elim node.ready [ none ↦ false | some ready ↦ ready ]
reports_ready (not_found e) = false
reports_ready (failed e) = false

-- A condition that was just set is found with the status that it was given.
abbrev pub FindsSet : ConditionOps → Type 0
FindsSet ops =
    (at : ℕ) (cs : List Condition) (c : Condition)
    → has_status c.status (ops.find_status_condition (ops.set_status_condition at cs c).0 c.type)
      ≡ true

-- The calls that stop, delete or capture something of a workspace.
abbrev pub is_substrate : Call → Bool
is_substrate (Call.update_replicas name n) = true
is_substrate (Call.delete_stateful_set name) = true
is_substrate (Call.delete_pvc name) = true
is_substrate (Call.release_database name) = true
is_substrate (Call.request_evacuation ws) = true
is_substrate _ = false

module _ (env : Cluster) (ops : ConditionOps) (r : Setup) where
  -- Passes one after another, each over the workspace that the one before left.
  abbrev pub checks : ℕ → Workspace → M Trace Workspace
  checks zero ws = return ws
  checks (suc n) ws = check_node_available env ops r ws >>= checks n

  -- Latched: no more notices, and the condition is still false.
  abbrev Quiet : Trace → Outcome Trace Workspace → Type 0
  Quiet t (ok ws u) =
      (notices u ≡ notices t) × (is_false env ops r condition_node_available ws ≡ true)
  Quiet t (err e u) = notices u ≡ notices t

  -- One notice more at most, after which the condition is false.
  abbrev Once : Trace → Outcome Trace Workspace → Type 0
  Once t (ok ws u) =
      (notices u ≡ notices t)
      ⊎ ((notices u ≡ notices t + 1) × (is_false env ops r condition_node_available ws ≡ true))
  Once t (err e u) = notices u ≡ notices t

  check-Quiet :
      (ws : Workspace) (t : Trace)
      → ((v : Trace) (name : String) → reports_ready (env.get_node v name) ≡ false)
      → is_false env ops r condition_node_available ws ≡ true
      → Quiet t (check_node_available env ops r ws t)
  unfolding check_node_available node_available node_returned node_lost
  check-Quiet ws t down h = grind (arith, down)

  node_lost-Once :
      (ws : Workspace) (name : String) (t : Trace)
      → FindsSet ops
      → Once t (node_lost env ops r ws name t)
  unfolding node_lost set_condition now update_status notify
  node_lost-Once ws name t law = grind (arith, law)

  check-Once :
      (ws : Workspace) (t : Trace)
      → FindsSet ops
      → ((v : Trace) (name : String) → reports_ready (env.get_node v name) ≡ false)
      → Once t (check_node_available env ops r ws t)
  unfolding check_node_available node_available
  check-Once ws t law down = grind (arith, down, node_lost-Once)

  next-Quiet :
      (loop : Workspace → M Trace Workspace) (t : Trace) (o : Outcome Trace Workspace)
      → ((ws : Workspace) (u : Trace)
          → is_false env ops r condition_node_available ws ≡ true
          → notices (final (loop ws u)) ≡ notices u)
      → Quiet t o
      → notices (final (◌>>=◌ (λ _. o) loop t)) ≡ notices t
  next-Quiet loop t (ok ws u) ih (same, latched) = omega (arith, ih ws u latched)
  next-Quiet loop t (err e u) ih q = q

  checks-quiet :
      (n : ℕ) (ws : Workspace) (t : Trace)
      → ((v : Trace) (name : String) → reports_ready (env.get_node v name) ≡ false)
      → is_false env ops r condition_node_available ws ≡ true
      → notices (final (checks n ws t)) ≡ notices t
  checks-quiet zero ws t down h = refl
  checks-quiet (suc n) ws t down h =
      next-Quiet (checks n) t (check_node_available env ops r ws t) (λ w u. checks-quiet n w u down)
        (check-Quiet ws t down h)

  next-Once :
      (loop : Workspace → M Trace Workspace) (t : Trace) (o : Outcome Trace Workspace)
      → ((ws : Workspace) (u : Trace)
          → is_false env ops r condition_node_available ws ≡ true
          → notices (final (loop ws u)) ≡ notices u)
      → ((ws : Workspace) (u : Trace) → notices (final (loop ws u)) ≤ notices u + 1)
      → Once t o
      → notices (final (◌>>=◌ (λ _. o) loop t)) ≤ notices t + 1
  next-Once loop t (ok ws u) quiet ih (inl same) = omega (arith, ih ws u)
  next-Once loop t (ok ws u) quiet ih (inr (one, latched)) = omega (arith, quiet ws u latched)
  next-Once loop t (err e u) quiet ih q = omega arith

  -- While the node does not become ready, any number of passes notify at most once, where a
  -- condition that was set is found as it was set.
  pub checks-once :
      (n : ℕ) (ws : Workspace) (t : Trace)
      → FindsSet ops
      → ((v : Trace) (name : String) → reports_ready (env.get_node v name) ≡ false)
      → notices (final (checks n ws t)) ≤ notices t + 1
  checks-once zero ws t law down = omega arith
  checks-once (suc n) ws t law down =
      next-Once (checks n) t (check_node_available env ops r ws t) (λ w u. checks-quiet n w u down)
        (λ w u. checks-once n w u law down) (check-Once ws t law down)

  -- The destroy of a workspace that has no substrate, or is marked as a duplicate of another, makes
  -- no call that stops, deletes or captures anything.
  pub reconcile_terminating_duplicate :
      (ws : Workspace) (t : Trace)
      → str_eq ws.status.workspace_id "" || is_true env ops r condition_duplicate_of_existing ws
        ≡ true
      → count_if is_substrate (final (reconcile_terminating env ops r ws t))
        ≡ count_if is_substrate t
  unfolding reconcile_terminating deactivate_blackboard remove_evacuation_finalizer now
      update_status update_workspace
  reconcile_terminating_duplicate ws t h = ground arith
