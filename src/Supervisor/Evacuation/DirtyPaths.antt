-- ===== src/Supervisor/Evacuation/DirtyPaths.antt =====
-- supervisor/internal/evacuation/snapshot.go: `dirtyPaths`, the parser of
-- `git status --porcelain -z`. A Go string is its list of bytes here.
pub mod Roundtrip
use parallel_workspace_serve.Prelude.{
  ℕ, zero, suc, Bool, true, false, List, [], ◌∷◌, ◌++◌, ◌==◌, ◌&&◌, ◌||◌, ltb, if◌then◌else◌,
  length, drop,
}

abbrev pub Bytes : Type 0
Bytes = List ℕ

abbrev pub or_first : Bytes → List Bytes → List Bytes
or_first b [] = b ∷ []
or_first b (field ∷ fields) = (b ++ field) ∷ fields

-- strings.Split at the byte NUL: one field more than there are separators.
unfoldable pub split_nul : Bytes → List Bytes
split_nul [] = [] ∷ []
split_nul (c ∷ out) =
    let rest = split_nul out in if c == 0 then [] ∷ rest else or_first (c ∷ []) rest

abbrev pub has_prefix : Bytes → Bytes → Bool
has_prefix s [] = true
has_prefix [] (p ∷ prefix) = false
has_prefix (c ∷ s) (p ∷ prefix) = c == p && has_prefix s prefix

-- ".vscode-server", and the slash.
abbrev pub editor_server_dir : Bytes
editor_server_dir =
    b'.' ∷ b'v' ∷ b's' ∷ b'c' ∷ b'o' ∷ b'd' ∷ b'e' ∷ b'-' ∷ b's' ∷ b'e' ∷ b'r' ∷ b'v' ∷ b'e' ∷ b'r'
    ∷ []

abbrev pub is_editor_path : Bytes → Bool
is_editor_path name = has_prefix name (editor_server_dir ++ b'/' ∷ [])

-- A status of a rename or a copy, by its first byte.
abbrev pub is_moved : Bytes → Bool
is_moved [] = false
is_moved (c ∷ rec) = c == b'R' || c == b'C'

abbrev pub keep_path : Bytes → List Bytes → List Bytes
keep_path name paths = if is_editor_path name then paths else name ∷ paths

-- The loop over the fields; `skip` is set where the field before it has moved the index on.
unfoldable pub paths_from : Bool → List Bytes → List Bytes
paths_from skip [] = []
paths_from true (rec ∷ fields) = paths_from false fields
paths_from false (rec ∷ fields) =
    let skipped = paths_from false fields in
    let kept = keep_path (drop 3 rec) (paths_from (is_moved rec) fields) in
    if ltb (length rec) 4 then skipped else kept

unfoldable pub dirty_paths : Bytes → List Bytes
dirty_paths out = paths_from false (split_nul out)
