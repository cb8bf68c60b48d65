-- ===== src/Controller/Workspaces/Safe.antt =====
-- lifecycle.go: the passes that stop or delete, and what has to come first.
use parallel_workspace_serve.Prelude.{
  ℕ, String, Bool, true, false, str_eq, eq_refl, ◌≡◌, arith, refl, Bool-cases, inl, inr, subst, sym,
}
use parallel_workspace_serve.Prelude.Outcome.{Outcome, ok, err, final, ◌>>=◌}
use parallel_workspace_serve.Controller.Types.{Workspace}
use parallel_workspace_serve.Controller.Conditions.{ConditionOps}
use parallel_workspace_serve.Controller.Workspaces.Cluster.{Trace, Cluster, Setup}
use parallel_workspace_serve.Controller.Workspaces.Calls.{
  now, update_status, update_workspace, get_stateful_set, delete_stateful_set, delete_pvc,
  release_database,
}
use parallel_workspace_serve.Controller.Workspaces.Evacuation.{
  set_condition, evacuate_before_stop, evacuation_complete, remove_evacuation_finalizer,
}
use parallel_workspace_serve.Controller.Workspaces.Lifecycle.{scale_stateful_set}
use parallel_workspace_serve.Controller.Workspaces.Passes.{
  connected, is_held, is_idle, mark_suspended, scale_down, suspend, suspend_if_idle,
  deactivate_blackboard, delete_storage, remove_compute, tear_down, reconcile_terminating,
}
use parallel_workspace_serve.Controller.Workspaces.Captures.{
  is_safe, Safe, keep_Safe, captured, removed, evacuate_before_stop-keeps,
  evacuate_before_stop-captured, evacuate_before_stop-same,
}

module _ (env : Cluster) (ops : ConditionOps) (r : Setup) where
  -- Safe, and captured or removed.
  abbrev Captured : String → Trace → Type 0
  Captured id t = (is_safe env t ≡ true) × (captured env id t ≡ true)

  abbrev Removed : String → Trace → Type 0
  Removed id t = (is_safe env t ≡ true) × (captured env id t ≡ true) × (removed env id t ≡ true)

  scale_stateful_set-Safe :
      (id : String) (n : ℕ) (t : Trace)
      → Captured id t
      → Safe env (final (scale_stateful_set env ops r id n t))
  unfolding scale_stateful_set get_stateful_set
  scale_stateful_set-Safe id n t c = ground arith

  mark_suspended-Safe :
      (ws : Workspace) (t : Trace) → Safe env t → Safe env (final (mark_suspended env ops r ws t))
  unfolding mark_suspended now set_condition update_status
  mark_suspended-Safe ws t s = ground arith

  scale_down-Safe :
      (id : String) (t : Trace) (o : Outcome Trace (Workspace × Bool))
      → Safe env (final o)
      → ((ws : Workspace) (u : Trace) → o ≡ ok (ws, true) u → captured env id u ≡ true)
      → Safe env (final (◌>>=◌ (λ _. o) (scale_down env ops r id) t))
  unfolding scale_down
  scale_down-Safe id t (ok (ws, false) u) s c = s
  scale_down-Safe id t (ok (ws, true) u) s c =
      let seen = c ws u refl in grind (arith, scale_stateful_set-Safe, mark_suspended-Safe)
  scale_down-Safe id t (err e u) s c = s

  suspend-Safe :
      (ws : Workspace) (t : Trace) → Safe env t → Safe env (final (suspend env ops r ws t))
  unfolding suspend
  suspend-Safe ws t s = elim (Bool-cases (str_eq ws.status.workspace_id "")) [
    | inl unnamed ↦ rw (unnamed, final) (mark_suspended-Safe ws t s)
    | inr named ↦
        rw (named, final)
          (scale_down-Safe ws.status.workspace_id t
            (evacuate_before_stop env ops r ws ws.status.workspace_id t)
            (evacuate_before_stop-keeps env ops r (Safe env) (keep_Safe env) ws
              ws.status.workspace_id t s)
            (λ ws' u. evacuate_before_stop-captured env ops r ws ws' t u named))
  ]

  connected-Safe :
      (ws : Workspace) (t : Trace) → Safe env t → Safe env (final (connected env ops r ws t))
  unfolding connected
  connected-Safe ws t s = ground arith

  is_held-Safe :
      (ws : Workspace) (t : Trace) → Safe env t → Safe env (final (is_held env ops r ws t))
  unfolding is_held
  is_held-Safe ws t s = grind (arith, connected-Safe)

  -- If so far every stop followed a capture and every delete of a working directory all that has to
  -- come before it, then so after an idle check: it scales a StatefulSet down only after its
  -- workspace was captured, its compute seen down or a snapshot that the supervisor returned
  -- recorded in the status.
  pub suspend_if_idle-Safe :
      (ws : Workspace) (t : Trace) → Safe env t → Safe env (final (suspend_if_idle env ops r ws t))
  unfolding suspend_if_idle is_idle now update_status
  suspend_if_idle-Safe ws t s = grind (arith, is_held-Safe, suspend-Safe)

  delete_storage-Safe :
      (ws : Workspace) (t : Trace)
      → Removed ws.status.workspace_id t
      → Safe env (final (delete_storage env ops r ws ws.status.workspace_id t))
  unfolding delete_storage evacuation_complete delete_pvc remove_evacuation_finalizer
      update_workspace
  delete_storage-Safe ws t c = ground (arith, eq_refl ws.status.workspace_id)

  delete_named-Safe :
      (ws : Workspace) (id : String) (t : Trace)
      → ws.status.workspace_id ≡ id
      → Removed id t
      → Safe env (final (delete_storage env ops r ws id t))
  delete_named-Safe ws id t same h =
      subst (λ n. Safe env (final (delete_storage env ops r ws n t))) same
        (delete_storage-Safe ws t (subst (λ n. Removed n t) (sym same) h))

  remove_compute-Safe :
      (id : String) (t : Trace) (o : Outcome Trace (Workspace × Bool))
      → Safe env (final o)
      → ((ws : Workspace) (u : Trace)
          → o ≡ ok (ws, true) u
          → (captured env id u ≡ true) × (ws.status.workspace_id ≡ id))
      → Safe env (final (◌>>=◌ (λ _. o) (remove_compute env ops r id) t))
  unfolding remove_compute delete_stateful_set release_database
  remove_compute-Safe id t (ok (ws, false) u) s c = s
  remove_compute-Safe id t (ok (ws, true) u) s c =
      let (seen, same) = c ws u refl in grind (arith, eq_refl, delete_named-Safe)
  remove_compute-Safe id t (err e u) s c = s

  tear_down-Safe :
      (ws : Workspace) (t : Trace)
      → str_eq ws.status.workspace_id "" ≡ false
      → Safe env t
      → Safe env (final (tear_down env ops r ws ws.status.workspace_id t))
  unfolding tear_down
  tear_down-Safe ws t named s =
      remove_compute-Safe ws.status.workspace_id t
        (evacuate_before_stop env ops r ws ws.status.workspace_id t)
        (evacuate_before_stop-keeps env ops r (Safe env) (keep_Safe env) ws ws.status.workspace_id t
          s)
        (λ ws' u h. (
          evacuate_before_stop-captured env ops r ws ws' t u named h,
          evacuate_before_stop-same env ops r ws ws' true ws.status.workspace_id t u h,
        ))

  tear_down_named-Safe :
      (ws : Workspace) (id : String) (t : Trace)
      → ws.status.workspace_id ≡ id
      → str_eq id "" ≡ false
      → Safe env t
      → Safe env (final (tear_down env ops r ws id t))
  tear_down_named-Safe ws id t same named s =
      subst (λ n. Safe env (final (tear_down env ops r ws n t))) same
        (tear_down-Safe ws t (subst (λ n. str_eq n "" ≡ false) (sym same) named) s)

  -- If so far every stop followed a capture and every delete of a working directory all that has to
  -- come before it, then so after a destroy: it deletes the StatefulSet only after the workspace
  -- was captured (its compute seen down, or a snapshot that the supervisor returned recorded in the
  -- status), and the PersistentVolumeClaim only after that, after the delete of the StatefulSet,
  -- and after the confirmer said that the evacuation is complete.
  pub reconcile_terminating-Safe :
      (ws : Workspace) (t : Trace)
      → Safe env t
      → Safe env (final (reconcile_terminating env ops r ws t))
  unfolding reconcile_terminating deactivate_blackboard now update_status
      remove_evacuation_finalizer update_workspace
  reconcile_terminating-Safe ws t s = grind (arith, tear_down_named-Safe)
