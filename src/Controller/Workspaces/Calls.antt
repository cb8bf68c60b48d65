-- ===== src/Controller/Workspaces/Calls.antt =====
-- workspace_controller.go: the settings' defaults, and the calls as steps of the trace.
use parallel_workspace_serve.Prelude.{
  ℕ, String, List, true, false, ◌∷◌, Option, none, some, if◌then◌else◌, ltb,
}
use parallel_workspace_serve.Prelude.Outcome.{M, ok, return, fail}
use parallel_workspace_serve.Controller.Types.{Workspace, Message}
use parallel_workspace_serve.Controller.Api.{Read}
use parallel_workspace_serve.Controller.Workspaces.Cluster.{
  StatefulSet, Call, Trace, Cluster, Setup, Deleted, deleted, missing, delete_failed, Created,
  created, already_exists, create_failed,
}

abbrev pub default_provisioning_timeout : ℕ
default_provisioning_timeout = 180

abbrev pub default_poll_interval : ℕ
default_poll_interval = 5

unfoldable pub timeout : Setup → ℕ
timeout r =
    if ltb 0 r.provisioning_timeout then r.provisioning_timeout else default_provisioning_timeout

unfoldable pub poll_interval : Setup → ℕ
poll_interval r = if ltb 0 r.poll_interval then r.poll_interval else default_poll_interval

-- The end of a write.
abbrev pub written : Option String → M Trace (Unit {0})
written none = return tt
written (some e) = fail e

-- The end of a delete, where client.IgnoreNotFound drops a missing object.
abbrev pub gone : Deleted → M Trace (Unit {0})
gone deleted = return tt
gone missing = return tt
gone (delete_failed e) = fail e

-- The end of `ensureCreated`.
abbrev pub ensured : Created → M Trace (Unit {0})
ensured created = return tt
ensured already_exists = return tt
ensured (create_failed e) = fail e

module _ (env : Cluster) where
  unfoldable pub now : M Trace ℕ
  now t = ok (env.clock t) (Call.read_clock ∷ t)

  unfoldable pub update_status : Workspace → M Trace (Unit {0})
  update_status ws t = written (env.update_status t ws) (Call.update_status ws ∷ t)

  unfoldable pub update_workspace : Workspace → M Trace (Unit {0})
  update_workspace ws t = written (env.update_workspace t ws) (Call.update_workspace ws ∷ t)

  unfoldable pub delete_stateful_set : String → M Trace (Unit {0})
  delete_stateful_set name t =
      gone (env.delete_stateful_set t name) (Call.delete_stateful_set name ∷ t)

  unfoldable pub delete_pvc : String → M Trace (Unit {0})
  delete_pvc name t = gone (env.delete_pvc t name) (Call.delete_pvc name ∷ t)

  unfoldable pub release_database : String → M Trace (Unit {0})
  release_database name t = written (env.release_database t name) (Call.release_database name ∷ t)

  unfoldable pub list_workspaces : M Trace (Read (List Workspace))
  list_workspaces t = ok (env.list_workspaces t) (Call.list_workspaces ∷ t)

  unfoldable pub get_stateful_set : String → M Trace (Read StatefulSet)
  get_stateful_set name t = ok (env.get_stateful_set t name) (Call.get_stateful_set name ∷ t)

unfoldable pub notify : Setup → Workspace → String → Message → M Trace (Unit {0})
notify r ws kind detail t = elim r.has_notify [
  | true ↦ ok tt (Call.notify ws.name kind detail ∷ t)
  | false ↦ ok tt t
]
