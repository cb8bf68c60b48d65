-- ===== src/Supervisor/Evacuation/Git.antt =====
-- supervisor/internal/evacuation: the state of the agent, its surroundings, and `writeBundle` of
-- snapshot.go. git, the object store, the operating system and the clock are parameters; the state
-- is the repository, the files and the objects of the store.
use mathlib.Core.Option
use parallel_workspace_serve.Prelude.{
  ℕ, Bool, true, false, ◌==◌, Option, none, some, [], ◌∷◌, ◌++◌, if◌then◌else◌,
}
use parallel_workspace_serve.Prelude.Outcome.{Outcome, ok, err, M, return, ◌>>=◌}
use parallel_workspace_serve.Supervisor.Evacuation.DirtyPaths.{Bytes}
use parallel_workspace_serve.Supervisor.Evacuation.Archive.{Files, System}
use parallel_workspace_serve.Supervisor.Evacuation.ObjectStore.{Destination, Objects, Server}

-- The commands of git that only read.
pub data Query : Type 0 where
  -- rev-parse --abbrev-ref HEAD, rev-parse HEAD, and status --porcelain -z -uall.
  abbrev_ref_head rev_parse_head status : Query
  -- rev-parse --verify --quiet of a reference, and rev-list --count of a range.
  verify rev_list_count : Bytes → Query

-- The uses of the staging directory that may fail.
pub data Stage : Type 0 where
  make_temp empty_bundle open_archive close_archive : Stage

pub record World (Repo : Type 0) : Type 0 where
  pub repo : Repo
  pub files : Files
  pub objects : Objects

pub record Tools (Repo : Type 0) : Type 0 where
  pub query : Query → World Repo → Option Bytes
  pub stage_fails : Stage → World Repo → Bool
  -- bundle create of a range: the file that it writes.
  pub bundle_create : Bytes → World Repo → Option Bytes
  -- fetch of a branch from a bundle, and reset --hard FETCH_HEAD.
  pub fetch : Bytes → Bytes → M (World Repo) (Unit {0})
  pub reset_hard : M (World Repo) (Unit {0})
  pub server : Server
  pub system : System
  pub now : World Repo → Bytes

-- The branch, its head, the bundle and the archive.
abbrev pub Collection : Type 0
Collection = Bytes × Bytes × Bytes × Bytes

pub record Agent : Type 0 where
  pub working_dir : Bytes
  pub workspace_id : Bytes
  pub store : Option Destination

pub record Snapshot : Type 0 where
  pub workspace_id : Bytes
  pub branch : Bytes
  pub head_commit : Bytes
  pub bundle_key : Bytes
  pub dirty_archive_key : Bytes
  pub captured_at : Bytes
  pub size_bytes : ℕ

-- "workspace/", "/latest/", "bundle.git" and "dirty.tar.gz".
abbrev pub workspace_text : Bytes
workspace_text = b'w' ∷ b'o' ∷ b'r' ∷ b'k' ∷ b's' ∷ b'p' ∷ b'a' ∷ b'c' ∷ b'e' ∷ b'/' ∷ []

abbrev pub latest_text : Bytes
latest_text = b'/' ∷ b'l' ∷ b'a' ∷ b't' ∷ b'e' ∷ b's' ∷ b't' ∷ b'/' ∷ []

abbrev pub key_prefix : Bytes → Bytes
key_prefix workspace_id = workspace_text ++ (workspace_id ++ latest_text)

unfoldable pub bundle_key : Bytes → Bytes
bundle_key workspace_id =
    key_prefix workspace_id
    ++ b'b' ∷ b'u' ∷ b'n' ∷ b'd' ∷ b'l' ∷ b'e' ∷ b'.' ∷ b'g' ∷ b'i' ∷ b't' ∷ []

unfoldable pub dirty_archive_key : Bytes → Bytes
dirty_archive_key workspace_id =
    key_prefix workspace_id
    ++ b'd' ∷ b'i' ∷ b'r' ∷ b't' ∷ b'y' ∷ b'.' ∷ b't' ∷ b'a' ∷ b'r' ∷ b'.' ∷ b'g' ∷ b'z' ∷ []

-- "origin/<branch>..<branch>", and "refs/remotes/origin/<branch>".
abbrev origin_text : Bytes
origin_text = b'o' ∷ b'r' ∷ b'i' ∷ b'g' ∷ b'i' ∷ b'n' ∷ b'/' ∷ []

unfoldable pub past_remote : Bytes → Bytes
past_remote branch = origin_text ++ (branch ++ (b'.' ∷ b'.' ∷ branch))

unfoldable pub remote_ref : Bytes → Bytes
remote_ref branch =
    b'r'
    ∷ b'e'
    ∷ b'f'
    ∷ b's'
    ∷ b'/'
    ∷ b'r'
    ∷ b'e'
    ∷ b'm'
    ∷ b'o'
    ∷ b't'
    ∷ b'e'
    ∷ b's'
    ∷ b'/'
    ∷ (origin_text ++ branch)

-- strings.TrimRight of the newlines.
unfoldable pub trim_newlines : Bytes → Bytes
trim_newlines [] = []
trim_newlines (c ∷ s) =
    let rest = trim_newlines s in
    elim rest [ [] ↦ (if c == 10 then [] else c ∷ []) | d ∷ t ↦ c ∷ d ∷ t ]

-- The output "0" of a count.
abbrev pub is_zero_text : Bytes → Bool
is_zero_text [] = false
is_zero_text (c ∷ []) = c == b'0'
is_zero_text (c ∷ d ∷ s) = false

module _ {Repo : Type 0} where
  abbrev pub or_fail : {A : Type 0} → Option A → M (World Repo) A
  or_fail none w = err "evacuation: git" w
  or_fail (some a) w = ok a w

  abbrev pub on_objects : {A : Type 0} → World Repo → Outcome Objects A → Outcome (World Repo) A
  on_objects w (ok a objects) = ok a (record w { objects = objects })
  on_objects w (err e objects) = err e (record w { objects = objects })

  abbrev pub on_files : {A : Type 0} → World Repo → Outcome Files A → Outcome (World Repo) A
  on_files w (ok a files) = ok a (record w { files = files })
  on_files w (err e files) = err e (record w { files = files })

module _ {Repo : Type 0} (tools : Tools Repo) where
  unfoldable pub answer : Query → World Repo → Option Bytes
  unfolding trim_newlines
  answer q w = Option.map trim_newlines (tools.query q w)

  -- The method `git`, for a command that only reads.
  unfoldable pub git : Query → M (World Repo) Bytes
  git q w = or_fail (answer q w) w

  unfoldable pub stage : Stage → M (World Repo) (Unit {0})
  stage s w = if tools.stage_fails s w then err "evacuation: staging" w else ok tt w

  -- Whether `git rev-parse --verify` finds the remote-tracking branch.
  unfoldable pub is_tracked : Bytes → World Repo → Bool
  unfolding answer
  is_tracked branch w = elim (answer (verify (remote_ref branch)) w) [
    | none ↦ false
    | some out ↦ true
  ]

  abbrev pub revs : Bytes → World Repo → Bytes
  unfolding is_tracked
  revs branch w = if is_tracked branch w then past_remote branch else branch

  -- The file by whether the range is empty.
  unfoldable pub bundle_if : Bool → Bytes → M (World Repo) Bytes
  unfolding stage
  bundle_if true range = stage empty_bundle >>= λ _. return []
  bundle_if false range = λ w. or_fail (tools.bundle_create range w) w

  unfoldable pub bundle_counted : Bytes → Bytes → M (World Repo) Bytes
  unfolding bundle_if
  bundle_counted range count = bundle_if (is_zero_text count) range

  -- `writeBundle`: the file that it leaves.
  unfoldable pub write_bundle : Bytes → M (World Repo) Bytes
  unfolding git bundle_counted
  write_bundle branch w =
      (git (rev_list_count (revs branch w)) >>= bundle_counted (revs branch w)) w
