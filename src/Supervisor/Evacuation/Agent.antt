-- ===== src/Supervisor/Evacuation/Agent.antt =====
-- supervisor/internal/evacuation: `Evacuate` of snapshot.go and `Restore` of restore.go.
pub mod Sparing
pub mod Read
pub mod Stored
pub mod Replay
use mathlib.Core.Option
use parallel_workspace_serve.Prelude.{
  ℕ, ◌+◌, Bool, true, false, not, ◌==◌, Option, none, some, List, [], ◌∷◌, ◌++◌, if◌then◌else◌,
  length,
}
use parallel_workspace_serve.Prelude.Outcome.{Outcome, ok, err, M, return, fail, ◌>>=◌, ◌>>◌}
use parallel_workspace_serve.Supervisor.Evacuation.DirtyPaths.{Bytes, dirty_paths}
use parallel_workspace_serve.Supervisor.Evacuation.Archive.{
  Files, TarEntry, System, add_files, extract_archive,
}
use parallel_workspace_serve.Supervisor.Evacuation.ObjectStore.{
  Destination, validate, Objects, Server, put_file, get_file,
}
use parallel_workspace_serve.Supervisor.Evacuation.Git.{
  Agent, Collection, Snapshot, Tools, World, abbrev_ref_head, bundle_key, close_archive,
  dirty_archive_key, git, is_tracked, is_zero_text, make_temp, on_files, on_objects, open_archive,
  past_remote, rev_list_count, rev_parse_head, stage, status, write_bundle,
}

module _ {Repo : Type 0} (tools : Tools Repo) (agent : Agent) where
  abbrev pub packed : List TarEntry → M (World Repo) Bytes
  packed entries w = ok (tools.system.pack entries) w

  -- `writeDirtyArchive`, after git has printed the status: the file that it leaves.
  unfoldable pub archive_status : Bytes → M (World Repo) Bytes
  unfolding stage
  archive_status out w =
      (do
        stage tools open_archive
        entries ← add_files tools.system w.files agent.working_dir (dirty_paths out)
        stage tools close_archive
        packed entries)
        w

  unfoldable pub write_dirty_archive : M (World Repo) Bytes
  unfolding git archive_status
  write_dirty_archive = git tools status >>= archive_status

  -- PutFile and GetFile of the agent's objects.
  unfoldable pub put_object : Bytes → Bytes → M (World Repo) ℕ
  put_object key body w = on_objects w (put_file tools.server key body w.objects)

  unfoldable pub get_object : Bytes → M (World Repo) Bytes
  get_object key w = on_objects w (get_file tools.server key w.objects)

  abbrev pub snapshot : Bytes → Bytes → ℕ → M (World Repo) Snapshot
  snapshot branch head size w =
      ok
        (record {
          workspace_id = agent.workspace_id;
          branch = branch;
          head_commit = head;
          bundle_key = bundle_key agent.workspace_id;
          dirty_archive_key = dirty_archive_key agent.workspace_id;
          captured_at = tools.now w;
          size_bytes = size;
        })
        w

  -- The two writes to the store, the bundle first.
  unfoldable pub publish : Bytes → Bytes → Bytes → Bytes → M (World Repo) Snapshot
  unfolding put_object
  publish branch head bundle archive = do
    bundle_size ← put_object (bundle_key agent.workspace_id) bundle
    archive_size ← put_object (dirty_archive_key agent.workspace_id) archive
    snapshot branch head (bundle_size + archive_size)

  unfoldable pub collect_archive : Bytes → Bytes → Bytes → M (World Repo) Collection
  unfolding write_dirty_archive
  collect_archive branch head bundle =
      write_dirty_archive >>= λ archive. return (branch, head, bundle, archive)

  unfoldable pub collect_files : Bytes → Bytes → M (World Repo) Collection
  unfolding stage write_bundle collect_archive
  collect_files branch head =
      stage tools make_temp >>= λ _. write_bundle tools branch >>= collect_archive branch head

  unfoldable pub collect_branch : Bytes → M (World Repo) Collection
  unfolding git collect_files
  collect_branch branch = git tools rev_parse_head >>= collect_files branch

  -- What `Evacuate` does before it writes to the store.
  unfoldable pub collect : M (World Repo) Collection
  unfolding git collect_branch
  collect = git tools abbrev_ref_head >>= collect_branch

  abbrev pub publish_all : Collection → M (World Repo) Snapshot
  unfolding publish
  publish_all (branch, head, bundle, archive) = publish branch head bundle archive

  abbrev pub with_store : {A : Type 0} → Option Destination → M (World Repo) A → M (World Repo) A
  with_store none m = fail "evacuation: no object store configured"
  with_store (some c) m = validate c >>= λ _. m

  unfoldable pub evacuate : M (World Repo) Snapshot
  unfolding collect publish validate
  evacuate = with_store agent.store (collect >>= publish_all)

  unfoldable pub is_ahead_if : Bool → Bytes → M (World Repo) Bool
  unfolding git
  is_ahead_if false branch = return false
  is_ahead_if true branch =
      git tools (rev_list_count (past_remote branch)) >>= λ count. return (not (is_zero_text count))

  unfoldable pub is_ahead : Bytes → M (World Repo) Bool
  unfolding is_ahead_if
  is_ahead branch w = is_ahead_if (is_tracked tools branch w) branch w

  -- `hasLocalWork`, after the status.
  unfoldable pub local_with : List Bytes → M (World Repo) Bool
  unfolding git is_ahead
  local_with [] = git tools abbrev_ref_head >>= is_ahead
  local_with (p ∷ ps) = return true

  unfoldable pub local_after_status : Bytes → M (World Repo) Bool
  unfolding local_with
  local_after_status out = local_with (dirty_paths out)

  unfoldable pub has_local_work : M (World Repo) Bool
  unfolding git local_after_status
  has_local_work = git tools status >>= local_after_status

  unfoldable pub replay_bundle : Bytes → Bytes → M (World Repo) (Unit {0})
  replay_bundle branch [] = return tt
  replay_bundle branch (c ∷ bundle) = tools.fetch (c ∷ bundle) branch >> tools.reset_hard

  unfoldable pub replay_archive : Bytes → M (World Repo) (Unit {0})
  replay_archive [] = return tt
  replay_archive (c ∷ archive) =
      λ w. on_files w (extract_archive tools.system agent.working_dir (c ∷ archive) w.files)

  -- What `Restore` does in a directory without local work.
  unfoldable pub replay : M (World Repo) (Unit {0})
  unfolding git stage get_object replay_bundle replay_archive
  replay = do
    branch ← git tools abbrev_ref_head
    stage tools make_temp
    bundle ← get_object (bundle_key agent.workspace_id)
    replay_bundle branch bundle
    archive ← get_object (dirty_archive_key agent.workspace_id)
    replay_archive archive

  unfoldable pub replay_unless : Bool → M (World Repo) (Unit {0})
  unfolding replay
  replay_unless true = return tt
  replay_unless false = replay

  unfoldable pub restore : M (World Repo) (Unit {0})
  unfolding has_local_work replay_unless validate
  restore = with_store agent.store (has_local_work >>= replay_unless)
