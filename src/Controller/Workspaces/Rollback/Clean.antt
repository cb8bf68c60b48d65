-- ===== src/Controller/Workspaces/Rollback/Clean.antt =====
-- workspace_controller.go: what a rollback leaves, and what a mirror may touch.
use parallel_workspace_serve.Prelude.{
  ◌-◌, ◌≤◌, ◌<◌, String, Bool, true, false, [], ◌∷◌, ◌||◌, ◌&&◌, str_eq, eq_refl, count_if, ◌≡◌,
  ◌⊎◌, inl, inr, arith, Bool-cases, ltb,
}
use parallel_workspace_serve.Prelude.Outcome.{Outcome, ok, err, final, ◌>>=◌}
use parallel_workspace_serve.Controller.Types.{Workspace, Message, CtrlResult, requeue_after}
use parallel_workspace_serve.Controller.Conditions.{ConditionOps}
use parallel_workspace_serve.Controller.Workspaces.Resources.{claude_md_config_map_name}
use parallel_workspace_serve.Controller.Workspaces.Cluster.{Call, Trace, Cluster, Setup}
use parallel_workspace_serve.Controller.Workspaces.Calls.{
  now, timeout, poll_interval, update_status, delete_stateful_set, delete_pvc, release_database,
}
use parallel_workspace_serve.Controller.Workspaces.Evacuation.{set_condition}
use parallel_workspace_serve.Controller.Workspaces.Passes.{reconcile_terminating}
use parallel_workspace_serve.Controller.Workspaces.Admission.{is_failed}
use parallel_workspace_serve.Controller.Workspaces.Captures.{is_done, is_gone}
use parallel_workspace_serve.Controller.Workspaces.Notices.{
  FindsSet, is_substrate, reconcile_terminating_duplicate,
}
use parallel_workspace_serve.Controller.Workspaces.Rollback.{
  mirrored_phase, mirror_canonical, remove_substrate, mark_failed, fail_and_rollback,
  requeue_or_fail,
}

module _ (env : Cluster) where
  -- Whether some call of the trace was an instance of `p`, which sees the trace before it.
  abbrev pub did : (Call → Trace → Bool) → Trace → Bool
  did p [] = false
  did p (c ∷ t) = p c t || did p t

  abbrev pub drops_compute : String → Call → Trace → Bool
  drops_compute id (Call.delete_stateful_set name) t =
      str_eq name id && is_gone (env.delete_stateful_set t name)
  drops_compute id _ t = false

  abbrev pub drops_storage : String → Call → Trace → Bool
  drops_storage id (Call.delete_pvc name) t = str_eq name id && is_gone (env.delete_pvc t name)
  drops_storage id _ t = false

  abbrev pub drops_database : String → Call → Trace → Bool
  drops_database id (Call.release_database name) t =
      str_eq name id && is_done (env.release_database t name)
  drops_database id _ t = false

  abbrev pub drops_routing : String → Call → Trace → Bool
  drops_routing id (Call.remove_routing name) t =
      str_eq name id && is_done (env.remove_routing t name)
  drops_routing id _ t = false

  abbrev pub drops_document : String → Call → Trace → Bool
  drops_document id (Call.delete_config_map name) t =
      str_eq name (claude_md_config_map_name id) && is_gone (env.delete_config_map t name)
  drops_document id _ t = false

  abbrev pub drops_credential : String → Call → Trace → Bool
  drops_credential id (Call.delete_secret name) t =
      str_eq name id && is_gone (env.delete_secret t name)
  drops_credential id _ t = false

  -- All that was provisioned under the name is gone.
  abbrev pub rolled_back : String → Trace → Bool
  rolled_back id t =
      did (drops_compute id) t
      && did (drops_storage id) t
      && did (drops_database id) t
      && did (drops_routing id) t
      && did (drops_document id) t
      && did (drops_credential id) t

abbrev pub is_status : Call → Bool
is_status (Call.update_status ws) = true
is_status _ = false

module _ (env : Cluster) (ops : ConditionOps) (r : Setup) where
  -- The status was written only after the rollback was done.
  abbrev pub Clean : String → Trace → Trace → Type 0
  Clean id t u = (count_if is_status u ≡ count_if is_status t) ⊎ (rolled_back env id u ≡ true)

  mark_failed-Clean :
      (ws : Workspace) (id reason : String) (message : Message) (t : Trace)
      → rolled_back env id t ≡ true
      → rolled_back env id (final (mark_failed env ops r ws reason message t)) ≡ true
  unfolding mark_failed set_condition now update_status
  mark_failed-Clean ws id reason message t h = ground arith

  -- A removal that succeeds has removed everything, and one that fails has written no status.
  abbrev Removal : String → Trace → Outcome Trace (Unit {0}) → Type 0
  Removal id t (ok x u) = rolled_back env id u ≡ true
  Removal id t (err e u) = count_if is_status u ≡ count_if is_status t

  remove_substrate-Removal :
      (id : String) (t : Trace) → Removal id t (remove_substrate env ops r id t)
  unfolding remove_substrate delete_stateful_set delete_pvc release_database
  remove_substrate-Removal id t = ground (arith, eq_refl id, eq_refl (claude_md_config_map_name id))

  -- Given up: no error, and nothing is left under the name, the last call wrote the phase Failed,
  -- and the pass is over; or an error, and a status was written only after the rollback was done.
  abbrev pub GivenUp : String → Trace → Outcome Trace CtrlResult → Type 0
  GivenUp id t (ok result u) =
      (result ≡ CtrlResult.done)
      × (rolled_back env id u ≡ true)
      × ((ws : Workspace) × (before : Trace) × (u ≡ Call.update_status ws ∷ before)
          × (is_failed ws.status.phase ≡ true))
  GivenUp id t (err e u) = Clean id t u

  mark_failed-GivenUp :
      (ws : Workspace) (id reason : String) (message : Message) (t u : Trace)
      → rolled_back env id u ≡ true
      → GivenUp id t (mark_failed env ops r ws reason message u)
  unfolding mark_failed set_condition now update_status
  mark_failed-GivenUp ws id reason message t u h = ground arith

  mark_failed_next-GivenUp :
      (ws : Workspace) (id reason : String) (message : Message) (t : Trace)
      (o : Outcome Trace (Unit {0}))
      → Removal id t o
      → GivenUp id t (◌>>=◌ (λ _. o) (λ _. mark_failed env ops r ws reason message) t)
  mark_failed_next-GivenUp ws id reason message t (ok x u) h =
      mark_failed-GivenUp ws id reason message t u h
  mark_failed_next-GivenUp ws id reason message t (err e u) h = inl h

  fail_and_rollback-GivenUp :
      (ws : Workspace) (id reason : String) (message : Message) (t : Trace)
      → str_eq id "" ≡ false
      → GivenUp id t (fail_and_rollback env ops r ws id reason message t)
  unfolding fail_and_rollback
  fail_and_rollback-GivenUp ws id reason message t named =
      rw (named, GivenUp)
        (mark_failed_next-GivenUp ws id reason message t (remove_substrate env ops r id t)
          (remove_substrate-Removal id t))

  clock-GivenUp :
      (id : String) (t : Trace) (o : Outcome Trace CtrlResult)
      → GivenUp id (Call.read_clock ∷ t) o
      → GivenUp id t o
  clock-GivenUp id t (ok result u) h = h
  clock-GivenUp id t (err e u) h = ground arith

  -- A provisioning under a name that cannot go on is tried again without any other call while its
  -- time is not up. From then on it is not tried again: the pass ends with an error, before which a
  -- status was written only if the StatefulSet, the PersistentVolumeClaim, the database, the
  -- routing, the shared document and the credential were all gone; or all of these are gone, and
  -- the last call wrote the phase Failed.
  pub requeue_or_fail-Clean :
      (ws : Workspace) (id reason message : String) (t : Trace)
      → str_eq id "" ≡ false
      → ((env.clock t - ws.creation_timestamp < timeout r)
          × (requeue_or_fail env ops r ws id reason message t
              ≡ ok (requeue_after (poll_interval r)) (Call.read_clock ∷ t)))
        ⊎ ((timeout r ≤ env.clock t - ws.creation_timestamp)
            × GivenUp id t (requeue_or_fail env ops r ws id reason message t))
  unfolding requeue_or_fail now
  requeue_or_fail-Clean ws id reason message t named =
      elim (Bool-cases (ltb (env.clock t - ws.creation_timestamp) (timeout r))) [
        | inl early ↦ inl (ground arith, ground arith)
        | inr late ↦ inr (
          ground arith,
          let given_up =
                fail_and_rollback-GivenUp ws id "ProvisioningTimeout"
                  (Message.provisioning_timeout reason message) (Call.read_clock ∷ t) named in
              rw (late, GivenUp) (clock-GivenUp id t _ given_up),
        )
      ]

  -- The status is that of the owner, and the destroy of such a workspace touches no substrate.
  abbrev pub Mirrors : Workspace → Outcome Trace (Workspace × CtrlResult) → Type 0
  Mirrors canonical (ok (ws, result) u) =
      (ws.status.phase ≡ mirrored_phase canonical.status.phase)
      × (ws.status.workspace_id ≡ canonical.status.workspace_id)
      × ((t : Trace)
          → count_if is_substrate (final (reconcile_terminating env ops r ws t))
            ≡ count_if is_substrate t)
  Mirrors canonical (err e u) = Unit

  -- Where a condition that was set is found as it was set: a workspace that was made a mirror of
  -- the owner of its branch has the phase and the id of the owner, and its destroy makes no call
  -- that stops, deletes or captures anything of the owner.
  pub mirror_canonical-Mirrors :
      (ws canonical : Workspace) (t : Trace)
      → FindsSet ops
      → Mirrors canonical (mirror_canonical env ops r ws canonical t)
  unfolding mirror_canonical set_condition now update_status
  mirror_canonical-Mirrors ws canonical t law = grind (arith, law, reconcile_terminating_duplicate)
