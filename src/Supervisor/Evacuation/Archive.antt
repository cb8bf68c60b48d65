-- ===== src/Supervisor/Evacuation/Archive.antt =====
-- snapshot.go and restore.go: the archive of the uncommitted changes, as `writeDirtyArchive` fills
-- it and `extractArchive` reads it. The packages archive/tar and compress/gzip and the calls of
-- the operating system are parameters.
pub mod Clearance
pub mod Contained
pub mod Overlay
use parallel_workspace_serve.Prelude.{
  ℕ, ◌%◌, Bool, true, false, Option, none, some, List, [], ◌∷◌, ◌++◌, if◌then◌else◌,
}
use parallel_workspace_serve.Prelude.Outcome.{Outcome, ok, err, M, return, fail, ◌>>=◌, ◌>>◌}
use parallel_workspace_serve.Supervisor.Evacuation.DirtyPaths.{Bytes}
use parallel_workspace_serve.Supervisor.Evacuation.FilePaths.{
  drop_last, clean, split_slash, abs_path, join_path, abs_dir, is_inside,
}

-- What stands at a path: a regular file with its permissions, or something else.
pub data Node : Type 0 where
  file : ℕ → Bytes → Node
  other : Node

-- The file system, by absolute path.
abbrev pub Files : Type 0
Files = Bytes → Option Node

-- The content of a regular file.
abbrev pub body_of : Option Node → Option Bytes
body_of none = none
body_of (some (file mode body)) = some body
body_of (some other) = none

abbrev pub content : Files → Bytes → Option Bytes
content files path = body_of (files path)

pub record TarEntry : Type 0 where
  pub name : Bytes
  pub mode : ℕ
  pub is_regular : Bool
  pub body : Bytes

-- What a reader of an archive meets: entries, then the end or an error. The content of an entry
-- may break off, and reading fails there.
pub data Reading : Type 0 where
  end_of_archive : Reading
  unreadable : Reading
  entry : TarEntry → Reading → Reading
  cut_short : TarEntry → Reading

-- Calls of the operating system and of the two packages.
pub record System : Type 0 where
  -- os.MkdirAll, os.OpenFile (which creates or empties the file) and io.Copy into it.
  pub mkdir_all : Bytes → M Files (Unit {0})
  pub open_file : Bytes → ℕ → M Files (Unit {0})
  pub copy : Bytes → Bytes → M Files (Unit {0})
  -- Whether os.Lstat fails on a path for another reason than its absence, and whether reading a
  -- file that is there into the archive does.
  pub lstat_fails : Bytes → Bool
  pub read_fails : Bytes → Bool
  pub pack : List TarEntry → Bytes
  -- What a reader meets of an archive that is cut off behind that many bytes of what it expands to;
  -- and how many bytes that is for these entries.
  pub unpack : ℕ → Bytes → Option Reading
  pub tar_size : List TarEntry → ℕ

-- `addFile`: the entry that it adds, if any; `node` is what stands at the path `full`.
unfoldable pub add_node : {S : Type 0} → System → Option Node → Bytes → Bytes → M S (List TarEntry)
add_node sys none full name = return []
add_node sys (some other) full name = return []
add_node sys (some (file mode body)) full name =
    if sys.read_fails full
    then fail "read"
    else return (record { name = name; mode = mode; is_regular = true; body = body } ∷ [])

unfoldable pub add_file : {S : Type 0} → System → Files → Bytes → Bytes → M S (List TarEntry)
unfolding add_node
add_file sys files root name =
    let full = join_path root name in
    if sys.lstat_fails full then fail "lstat" else add_node sys (files full) full name

abbrev pub with_more : {S : Type 0} → List TarEntry → List TarEntry → M S (List TarEntry)
with_more entries more = return (entries ++ more)

-- The loop of `writeDirtyArchive`.
unfoldable pub add_files : {S : Type 0} → System → Files → Bytes → List Bytes → M S (List TarEntry)
unfolding add_file
add_files sys files root [] = return []
add_files sys files root (name ∷ names) =
    let rest = add_files sys files root names in
    add_file sys files root name >>= λ entries. rest >>= with_more entries

-- filepath.Dir of an absolute path that is clean.
unfoldable pub parent_dir : Bytes → Bytes
unfolding clean split_slash
parent_dir path = abs_path (drop_last (clean [] (split_slash path)))

unfoldable pub write_target : System → Bytes → ℕ → Bytes → M Files (Unit {0})
write_target sys target mode body =
    sys.mkdir_all (parent_dir target) >> sys.open_file target (mode % 512) >> sys.copy target body

-- One regular entry, by whether its target is inside the working directory.
unfoldable pub write_if : Bool → System → Bytes → TarEntry → M Files (Unit {0})
unfolding write_target
write_if false sys target e = fail "evacuation: dirty archive entry escapes the working directory"
write_if true sys target e = write_target sys target e.mode e.body

-- `root` is the absolute working directory.
unfoldable pub extract_entry : System → Bytes → TarEntry → M Files (Unit {0})
unfolding write_if
extract_entry sys root e =
    let target = join_path root e.name in write_if (is_inside root target) sys target e

-- The loop of `extractArchive`.
unfoldable pub extract_entries : System → Bytes → Reading → M Files (Unit {0})
unfolding extract_entry
extract_entries sys root end_of_archive = return tt
extract_entries sys root unreadable = fail "evacuation: reading dirty archive"
extract_entries sys root (entry e rest) = elim e.is_regular [
  | false ↦ extract_entries sys root rest
  | true ↦ extract_entry sys root e >> extract_entries sys root rest
]
extract_entries sys root (cut_short e) = elim e.is_regular [
  | false ↦ fail "evacuation: reading dirty archive"
  | true ↦ extract_entry sys root e >> fail "unexpected EOF"
]

unfoldable pub extract_reading : Option Reading → System → Bytes → M Files (Unit {0})
unfolding extract_entries
extract_reading none sys root = fail "evacuation: reading dirty archive"
extract_reading (some reading) sys root = extract_entries sys root reading

-- 2 << 30.
abbrev pub max_archive_bytes : ℕ
max_archive_bytes = 2147483648

unfoldable pub extract_archive : System → Bytes → Bytes → M Files (Unit {0})
unfolding extract_entries extract_reading
extract_archive sys working_dir archive =
    extract_reading (sys.unpack max_archive_bytes archive) sys (abs_dir working_dir)
