-- ===== src/Controller/Workspaces/Examples.antt =====
-- workspace_controller.go and lifecycle.go: the theorems at concrete inputs, and small runs.
use parallel_workspace_serve.Prelude.{
  ◌≢◌, arith, Bool, true, false, List, [], ◌∷◌, none, some, refl, ◌≡◌, str_eq, any, ◌⊎◌,
}
use parallel_workspace_serve.Controller.Workspaces.Fixtures.{
  workspace, cluster, setup, newest_first,
}
use parallel_workspace_serve.Controller.Types.{Workspace, WorkspacePhase}
use parallel_workspace_serve.Prelude.Outcome.{ok, final}
use parallel_workspace_serve.Controller.Workspaces.Cluster.{Call, Setup}
use parallel_workspace_serve.Controller.Workspaces.Calls.{
  now, update_status, update_workspace, get_stateful_set, delete_stateful_set, delete_pvc,
  release_database,
}
use parallel_workspace_serve.Controller.Workspaces.Evacuation.{
  is_evacuation_complete, set_condition, evacuate_before_stop, evacuation_complete,
  remove_evacuation_finalizer, compute_running, requested, record_capture, capture,
}
use parallel_workspace_serve.Controller.Workspaces.Passes.{
  reconcile_terminating, tear_down, remove_compute, delete_storage, deactivate_blackboard,
}
use parallel_workspace_serve.Controller.Workspaces.Captures.{Safe}
use parallel_workspace_serve.Controller.Workspaces.Safe.{reconcile_terminating-Safe}
use parallel_workspace_serve.Prelude.{◌-◌, ◌≤◌, ◌<◌, inl, inr, sym, subst, ◌∙◌, eq_refl}
use parallel_workspace_serve.Controller.Types.{requeue_after}
use parallel_workspace_serve.Controller.TaskQueue.Pass.{is_older}
use parallel_workspace_serve.Controller.Workspaces.Calls.{timeout, poll_interval}
use parallel_workspace_serve.Controller.Workspaces.Owners.{
  is_candidate, is_elder, insert_workspace, sort_workspaces, choose, canonical_of,
}
use parallel_workspace_serve.Controller.Workspaces.Owners.Agreement.{
  IsIn, NamedApart, canonical_of-canonical_of,
}
use parallel_workspace_serve.Controller.Workspaces.Notices.{FindsSet}
use parallel_workspace_serve.Controller.Workspaces.Rollback.{requeue_or_fail}
use parallel_workspace_serve.Controller.Workspaces.Rollback.Clean.{GivenUp, requeue_or_fail-Clean}

abbrev doomed : Workspace
doomed = workspace "w" WorkspacePhase.ready

reconcile_terminating-Safe_example :
    Safe cluster (final (reconcile_terminating cluster newest_first setup doomed []))
reconcile_terminating-Safe_example =
    reconcile_terminating-Safe cluster newest_first setup doomed [] refl

abbrev is_pvc_delete : Call → Bool
is_pvc_delete (Call.delete_pvc name) = true
is_pvc_delete _ = false

-- The working directory of this workspace is deleted at last.
deleted_at_last :
    any is_pvc_delete (final (reconcile_terminating cluster newest_first setup doomed [])) ≡ true
unfolding reconcile_terminating deactivate_blackboard tear_down remove_compute delete_storage
    evacuate_before_stop compute_running get_stateful_set capture requested record_capture
    set_condition now update_status delete_stateful_set release_database evacuation_complete
    is_evacuation_complete delete_pvc remove_evacuation_finalizer update_workspace
deleted_at_last = refl

newest_first-FindsSet : FindsSet newest_first
newest_first-FindsSet at cs c = ground (arith, eq_refl c.type)

abbrev nameless : Workspace
nameless = record doomed { status = record doomed.status { workspace_id = "" } }

abbrev impatient : Setup
impatient = record setup { provisioning_timeout = 50 }

requeue_or_fail-Clean_example :
    ((100 - 0 < timeout impatient)
      × (requeue_or_fail cluster newest_first impatient doomed "feature" "r" "m" []
          ≡ ok (requeue_after (poll_interval impatient)) (Call.read_clock ∷ [])))
    ⊎ ((timeout impatient ≤ 100 - 0)
        × GivenUp cluster newest_first impatient "feature" []
            (requeue_or_fail cluster newest_first impatient doomed "feature" "r" "m" []))
requeue_or_fail-Clean_example =
    requeue_or_fail-Clean cluster newest_first impatient doomed "feature" "r" "m" [] refl

-- Two workspaces of one branch.
abbrev elder : Workspace
elder = workspace "a" WorkspacePhase.ready

abbrev younger : Workspace
younger = record (workspace "b" WorkspacePhase.unset) { creation_timestamp = 1 }

abbrev both : List Workspace
both = younger ∷ elder ∷ []

younger_finds : canonical_of younger both ≡ some elder
unfolding canonical_of is_candidate choose sort_workspaces insert_workspace is_elder is_older
younger_finds = refl

elder_owns : canonical_of elder both ≡ none
unfolding canonical_of is_candidate choose sort_workspaces insert_workspace is_elder is_older
elder_owns = refl

elder_candidate : is_candidate younger elder ≡ true
unfolding is_candidate
elder_candidate = refl

younger_candidate : is_candidate elder younger ≡ true
unfolding is_candidate
younger_candidate = refl

apart_at :
    (x y : Workspace) (a b : Workspace)
    → a ≡ x
    → b ≡ y
    → str_eq a.name b.name ≡ false
    → str_eq x.name y.name ≡ true
    → ⊥
apart_at x y a b p q h e =
    let k : str_eq a.name b.name ≡ true =
      subst (λ v. str_eq a.name v.name ≡ true) (sym q)
        (subst (λ v. str_eq v.name y.name ≡ true) (sym p) e) in
    ground arith

both-NamedApart : NamedApart both
both-NamedApart x y (inl p) (inl q) e = sym p ∙ q
both-NamedApart x y (inl p) (inr (inl q)) e = absurd (apart_at x y younger elder p q refl e)
both-NamedApart x y (inl p) (inr (inr j)) e = absurd j
both-NamedApart x y (inr (inl p)) (inl q) e = absurd (apart_at x y elder younger p q refl e)
both-NamedApart x y (inr (inl p)) (inr (inl q)) e = sym p ∙ q
both-NamedApart x y (inr (inl p)) (inr (inr j)) e = absurd j
both-NamedApart x y (inr (inr i)) j e = absurd i

canonical_of-canonical_of_example :
    IsIn elder both
    × ((elder.spec.repository ≡ younger.spec.repository)
        × (elder.spec.branch ≡ younger.spec.branch)
        × (elder.deleting ≡ false)
        × (elder.name ≢ younger.name))
    × (canonical_of elder both ≡ none)
canonical_of-canonical_of_example =
    canonical_of-canonical_of both younger elder both-NamedApart (inl refl) younger_finds
