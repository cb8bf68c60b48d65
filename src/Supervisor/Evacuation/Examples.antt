-- ===== src/Supervisor/Evacuation/Examples.antt =====
-- A small machine: one file is changed, its evacuation is restored into a fresh clone.
use parallel_workspace_serve.Supervisor.Evacuation.Archive.Clearance.{IsCaptured}
use parallel_workspace_serve.Prelude.{
  ℕ, true, false, Option, none, some, List, [], ◌∷◌, ◌++◌, ◌==◌, ◌≡◌, ◌≢◌, inl, refl, ap, arith,
  if◌then◌else◌,
}
use parallel_workspace_serve.Prelude.Outcome.{ok, final}
use parallel_workspace_serve.Supervisor.Evacuation.DirtyPaths.{
  Bytes, split_nul, dirty_paths, paths_from,
}
use parallel_workspace_serve.Supervisor.Evacuation.FilePaths.{
  abs_path, split_slash, clean, bytes_eq,
}
use parallel_workspace_serve.Supervisor.Evacuation.FilePaths.Below.{Below, components}
use parallel_workspace_serve.Supervisor.Evacuation.Archive.{
  Files, content, extract_archive, TarEntry,
}
use parallel_workspace_serve.Supervisor.Evacuation.Archive.Contained.{extract_archive-outside}
use parallel_workspace_serve.Supervisor.Evacuation.ObjectStore.{Destination}
use parallel_workspace_serve.Supervisor.Evacuation.Git.{
  Query, abbrev_ref_head, rev_parse_head, status, verify, rev_list_count, World, Tools, Agent,
  Snapshot, bundle_key, dirty_archive_key, answer, trim_newlines,
}
use parallel_workspace_serve.Supervisor.Evacuation.Agent.{restore}
use parallel_workspace_serve.Supervisor.Evacuation.Agent.Sparing.{Uncommitted, restore_spares}
use parallel_workspace_serve.Supervisor.Evacuation.Fixtures.{
  pack_entries, work_dir, work_file, etc_file, placed, plain_system, plain_system-IsLocal,
  kept_under, plain_server,
}

-- Machine 0 holds the changed file, machine 1 the fresh clone. " M a" is what git prints of it.
abbrev changed_status : Bytes
changed_status = b' ' ∷ b'M' ∷ b' ' ∷ b'a' ∷ 0 ∷ []

abbrev plain_query : Query → World ℕ → Option Bytes
plain_query abbrev_ref_head w = some (b'm' ∷ 10 ∷ [])
plain_query rev_parse_head w = some (b'h' ∷ 10 ∷ [])
plain_query status w = some (if w.repo == 0 then changed_status else [])
plain_query (verify reference) w = some []
plain_query (rev_list_count range) w = some ((if w.repo == 0 then b'1' else b'0') ∷ 10 ∷ [])

abbrev plain_tools : Tools ℕ
plain_tools = record {
  query = plain_query;
  stage_fails = λ s w. false;
  bundle_create = λ range w. some (5 ∷ []);
  fetch = λ bundle branch w. ok tt w;
  reset_hard = λ w. ok tt (record w { repo = 2; files = placed work_file 420 (9 ∷ []) w.files });
  server = plain_server;
  system = plain_system;
  now = λ w. [];
}

abbrev destination : Destination
destination = record {
  endpoint = b'e' ∷ [];
  bucket = b'b' ∷ [];
  access_key = b'k' ∷ [];
  secret_key = b's' ∷ [];
}

abbrev work_agent : Agent
work_agent = record { working_dir = work_dir; workspace_id = b'i' ∷ []; store = some destination }

abbrev no_files : Files
no_files q = none

abbrev changed_world : World ℕ
changed_world = record {
  repo = 0;
  files = placed work_file 420 (7 ∷ []) no_files;
  objects = λ q. none;
}

abbrev captured_archive : Bytes
captured_archive =
    pack_entries (record { name = b'a' ∷ []; mode = 420; is_regular = true; body = 7 ∷ [] } ∷ [])

abbrev captured_world : World ℕ
captured_world = record changed_world {
  objects =
      kept_under (dirty_archive_key (b'i' ∷ [])) captured_archive
        (kept_under (bundle_key (b'i' ∷ [])) (5 ∷ []) (λ q. none));
}

abbrev made_snapshot : Snapshot
made_snapshot = record {
  workspace_id = b'i' ∷ [];
  branch = b'm' ∷ [];
  head_commit = b'h' ∷ [];
  bundle_key = bundle_key (b'i' ∷ []);
  dirty_archive_key = dirty_archive_key (b'i' ∷ []);
  captured_at = [];
  size_bytes = 9;
}

abbrev clone_world : World ℕ
clone_world = record { repo = 1; files = no_files; objects = captured_world.objects }

abbrev base_world : World ℕ
base_world = record clone_world { repo = 2; files = placed work_file 420 (9 ∷ []) no_files }

reported : answer plain_tools status changed_world ≡ some changed_status
unfolding answer trim_newlines
reported = refl

abbrev work_entries : List TarEntry
work_entries = record { name = b'a' ∷ []; mode = 420; is_regular = true; body = 7 ∷ [] } ∷ []

-- The only file that was captured, over the one of the clone.
abbrev IsWorkFile : Bytes → Type 0
IsWorkFile t = IsCaptured work_dir (dirty_paths changed_status) changed_world.files t

-- "../etc" in the archive of a store that was tampered with.
abbrev escaping_archive : Bytes
escaping_archive = pack_entries (
    record {
      name = b'.' ∷ b'.' ∷ b'/' ∷ b'e' ∷ b't' ∷ b'c' ∷ [];
      mode = 420;
      is_regular = true;
      body = 6 ∷ [];
    }
    ∷ [])

abbrev second : Bytes → ℕ
second (c ∷ d ∷ s) = d
second s = 0

work_components : components work_dir ≡ (b'w' ∷ []) ∷ []
unfolding clean split_slash
work_components = refl

below_second : (rest : List Bytes) → second (abs_path (components work_dir ++ rest)) ≡ b'w'
below_second rest = ap (λ cs. second (abs_path (cs ++ rest))) work_components

etc_outside : Below (components work_dir) etc_file → ⊥
etc_outside (rest, plain, e) = absurd (omega (arith, ap second e, below_second rest))

extract_archive-outside_example :
    content
      (final (
        extract_archive plain_system work_dir escaping_archive
          (placed etc_file 420 (1 ∷ []) no_files)))
      etc_file
    ≡ some (1 ∷ [])
unfolding bytes_eq
extract_archive-outside_example =
    extract_archive-outside plain_system work_dir escaping_archive etc_file
      (placed etc_file 420 (1 ∷ []) no_files) plain_system-IsLocal etc_outside

changed_paths : dirty_paths changed_status ≢ []
unfolding dirty_paths paths_from split_nul
changed_paths e = cc

changed_world-Uncommitted : Uncommitted plain_tools changed_world
changed_world-Uncommitted = record {
  out = changed_status;
  reported = reported;
  changed = changed_paths;
}

restore_spares_example : final (restore plain_tools work_agent changed_world) ≡ changed_world
restore_spares_example =
    restore_spares plain_tools work_agent changed_world (inl changed_world-Uncommitted)
