-- ===== src/Controller/Workspaces/Captures.antt =====
-- lifecycle.go and evacuation.go: nothing is stopped or deleted before it was captured.
use parallel_workspace_serve.Prelude.{
  String, Bool, true, false, [], ◌∷◌, Option, none, some, ◌&&◌, ◌||◌, ◌==◌, str_eq, eq_refl,
  if◌then◌else◌, ltb, not, ◌≡◌, ◌≢◌, arith,
}
use parallel_workspace_serve.Prelude.Outcome.{ok, final}
use parallel_workspace_serve.Controller.Types.{Workspace, EvacuationSnapshot}
use parallel_workspace_serve.Controller.Conditions.{ConditionOps}
use parallel_workspace_serve.Controller.Api.{Read, found, not_found, failed}
use parallel_workspace_serve.Controller.Workspaces.Cluster.{
  StatefulSet, Call, Trace, Cluster, Setup, Deleted, deleted, missing, delete_failed,
}
use parallel_workspace_serve.Controller.Workspaces.Calls.{
  now, update_status, get_stateful_set, notify,
}
use parallel_workspace_serve.Controller.Workspaces.Evacuation.{
  set_condition, evacuate_before_stop, compute_running, requested, refuse_stop, record_capture,
  capture,
}

-- The answers that show a workspace's compute to be down, or a snapshot of it to be recorded.
abbrev pub is_down : Read StatefulSet → Bool
is_down (found sts) = not (ltb 0 sts.ready_replicas)
is_down (not_found e) = true
is_down (failed e) = false

abbrev pub snapshot_of : Read EvacuationSnapshot → Option EvacuationSnapshot
snapshot_of (found snap) = some snap
snapshot_of (not_found e) = none
snapshot_of (failed e) = none

abbrev pub same_key : Option EvacuationSnapshot → Option EvacuationSnapshot → Bool
same_key none s = false
same_key (some a) none = false
same_key (some a) (some b) = str_eq a.bundle_key b.bundle_key

abbrev pub is_done : Option String → Bool
is_done none = true
is_done (some e) = false

abbrev pub is_gone : Deleted → Bool
is_gone deleted = true
is_gone missing = true
is_gone (delete_failed e) = false

abbrev pub says_yes : Read Bool → Bool
says_yes (found b) = b
says_yes (not_found e) = false
says_yes (failed e) = false

module _ (env : Cluster) where
  -- What the newest request to evacuate the workspace gave.
  abbrev pub newest : String → Trace → Option EvacuationSnapshot
  newest id [] = none
  newest id (Call.request_evacuation ws ∷ t) =
      if str_eq ws.status.workspace_id id
      then snapshot_of (env.request_evacuation t ws)
      else newest id t
  newest id (_ ∷ t) = newest id t

  -- The compute was seen down, or a snapshot just received was recorded in the status.
  abbrev pub captured : String → Trace → Bool
  captured id [] = false
  captured id (Call.get_stateful_set name ∷ t) =
      (str_eq name id && is_down (env.get_stateful_set t name)) || captured id t
  captured id (Call.update_status ws ∷ t) =
      (str_eq ws.status.workspace_id id
        && is_done (env.update_status t ws)
        && same_key ws.status.last_evacuation (newest id t))
      || captured id t
  captured id (_ ∷ t) = captured id t

  -- The StatefulSet was deleted.
  abbrev pub removed : String → Trace → Bool
  removed id [] = false
  removed id (Call.delete_stateful_set name ∷ t) =
      (str_eq name id && is_gone (env.delete_stateful_set t name)) || removed id t
  removed id (_ ∷ t) = removed id t

  -- The confirmer said that the evacuation is complete.
  abbrev pub confirmed : String → Trace → Bool
  confirmed id [] = false
  confirmed id (Call.confirm_evacuation ws ∷ t) =
      (str_eq ws.status.workspace_id id && says_yes (env.confirm_evacuation t ws)) || confirmed id t
  confirmed id (_ ∷ t) = confirmed id t

  -- Every stop of the compute follows a capture, and every delete of the working directory follows
  -- a capture, the delete of the compute and the confirmation.
  abbrev pub is_safe : Trace → Bool
  is_safe [] = true
  is_safe (Call.delete_stateful_set name ∷ t) = captured name t && is_safe t
  is_safe (Call.update_replicas name n ∷ t) =
      (if n == 0 then captured name t else true) && is_safe t
  is_safe (Call.delete_pvc name ∷ t) =
      captured name t && removed name t && confirmed name t && is_safe t
  is_safe (_ ∷ t) = is_safe t

  -- The calls that stop or delete.
  abbrev pub is_stop : Call → Bool
  is_stop (Call.delete_stateful_set name) = true
  is_stop (Call.update_replicas name n) = true
  is_stop (Call.delete_pvc name) = true
  is_stop _ = false

  abbrev pub Safe : Trace → Type 0
  Safe t = is_safe t ≡ true

  pub keep_Safe : (c : Call) (t : Trace) → Safe t → is_stop c ≡ false → Safe (c ∷ t)
  keep_Safe (Call.delete_stateful_set name) t s h = ground arith
  keep_Safe (Call.update_replicas name n) t s h = ground arith
  keep_Safe (Call.delete_pvc name) t s h = ground arith
  keep_Safe _ t s h = s

  pub keep_captured :
      (id : String) (c : Call) (t : Trace) → captured id t ≡ true → captured id (c ∷ t) ≡ true
  keep_captured id (Call.get_stateful_set name) t s = ground arith
  keep_captured id (Call.update_status ws) t s = ground arith
  keep_captured id _ t s = s

  pub keep_removed :
      (id : String) (c : Call) (t : Trace) → removed id t ≡ true → removed id (c ∷ t) ≡ true
  keep_removed id (Call.delete_stateful_set name) t s = ground arith
  keep_removed id _ t s = s

module _ (env : Cluster) (ops : ConditionOps) (r : Setup) (P : Trace → Type 0)
    (keep : (c : Call) (t : Trace) → P t → is_stop env c ≡ false → P (c ∷ t)) where
  refuse_stop-keeps :
      (ws : Workspace) (e : String) (t : Trace) → P t → P (final (refuse_stop env ops r ws e t))
  unfolding refuse_stop set_condition now notify update_status
  refuse_stop-keeps ws e t p = grind (arith, keep)

  record_capture-keeps :
      (ws : Workspace) (snap : EvacuationSnapshot) (t : Trace)
      → P t
      → P (final (record_capture env ops r ws snap t))
  unfolding record_capture set_condition now update_status
  record_capture-keeps ws snap t p = grind (arith, keep)

  capture-keeps : (ws : Workspace) (t : Trace) → P t → P (final (capture env ops r ws t))
  unfolding capture requested
  capture-keeps ws t p = grind (arith, keep, refuse_stop-keeps, record_capture-keeps)

  pub evacuate_before_stop-keeps :
      (ws : Workspace) (name : String) (t : Trace)
      → P t
      → P (final (evacuate_before_stop env ops r ws name t))
  unfolding evacuate_before_stop compute_running get_stateful_set
  evacuate_before_stop-keeps ws name t p = grind (arith, keep, capture-keeps)

module _ (env : Cluster) (ops : ConditionOps) (r : Setup) where
  refuse_stop-no :
      (ws ws' : Workspace) (e : String) (t u : Trace)
      → refuse_stop env ops r ws e t ≢ ok (ws', true) u
  unfolding refuse_stop set_condition now notify update_status
  refuse_stop-no ws ws' e t u h = ground arith

  record_capture-captured :
      (ws ws' : Workspace) (snap : EvacuationSnapshot) (t u : Trace)
      → newest env ws.status.workspace_id t ≡ some snap
      → record_capture env ops r ws snap t ≡ ok (ws', true) u
      → captured env ws.status.workspace_id u ≡ true
  unfolding record_capture set_condition now update_status
  record_capture-captured ws ws' snap t u n h =
      ground (arith, eq_refl ws.status.workspace_id, eq_refl snap.bundle_key)

  capture-captured :
      (ws ws' : Workspace) (t u : Trace)
      → capture env ops r ws t ≡ ok (ws', true) u
      → captured env ws.status.workspace_id u ≡ true
  unfolding capture requested
  capture-captured ws ws' t u h = grind (arith, eq_refl, refuse_stop-no, record_capture-captured)

  -- Compute is reported safe to stop only where the workspace was captured or is down.
  pub evacuate_before_stop-captured :
      (ws ws' : Workspace) (t u : Trace)
      → str_eq ws.status.workspace_id "" ≡ false
      → evacuate_before_stop env ops r ws ws.status.workspace_id t ≡ ok (ws', true) u
      → captured env ws.status.workspace_id u ≡ true
  unfolding evacuate_before_stop compute_running get_stateful_set
  evacuate_before_stop-captured ws ws' t u n h = grind (arith, eq_refl, capture-captured)

  -- It changes the status at most in the snapshot and the conditions.
  pub evacuate_before_stop-same :
      (ws ws' : Workspace) (b : Bool) (name : String) (t u : Trace)
      → evacuate_before_stop env ops r ws name t ≡ ok (ws', b) u
      → ws'.status.workspace_id ≡ ws.status.workspace_id
  unfolding evacuate_before_stop compute_running get_stateful_set capture requested refuse_stop
      record_capture set_condition now notify update_status
  evacuate_before_stop-same ws ws' b name t u h = ground arith
