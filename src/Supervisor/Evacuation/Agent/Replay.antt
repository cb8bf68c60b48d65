-- ===== src/Supervisor/Evacuation/Agent/Replay.antt =====
-- snapshot.go and restore.go: what `Evacuate` has stored, `Restore` puts back.
use parallel_workspace_serve.Prelude.{some, ◌≡◌}
use parallel_workspace_serve.Prelude.Outcome.{M}
use parallel_workspace_serve.Supervisor.Evacuation.DirtyPaths.{Bytes}
use parallel_workspace_serve.Supervisor.Evacuation.Git.{
  World, Tools, Agent, Snapshot, bundle_key, dirty_archive_key,
}
use parallel_workspace_serve.Supervisor.Evacuation.Agent.{with_store}
use parallel_workspace_serve.Supervisor.Evacuation.Agent.Read.{Collected}

module _ {Repo : Type 0} (tools : Tools Repo) (agent : Agent) where
  -- What a successful evacuation implies of the store and of its configuration.
  record Evacuated (w u : World Repo) (s : Snapshot) : Type 0 where
    bundle : Bytes
    archive : Bytes
    collected : Collected tools agent w s.branch bundle archive
    stored_bundle : u.objects (bundle_key agent.workspace_id) ≡ some bundle
    stored_archive : u.objects (dirty_archive_key agent.workspace_id) ≡ some archive
    configured :
        (m : M (World Repo) (Unit {0})) (v : World Repo)
        → with_store tools agent agent.store m v ≡ m v
