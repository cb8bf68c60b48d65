-- ===== src/Supervisor/Evacuation/FilePaths.antt =====
-- supervisor/internal/evacuation: filepath.Join below an absolute directory, as `addFile` and
-- `extractArchive` use it, and the test by which `extractArchive` refuses an entry. Of
-- filepath.Clean this is the case of an absolute path.
pub mod Below
use parallel_workspace_serve.Prelude.{
  ℕ, Bool, true, false, List, [], ◌∷◌, ◌++◌, ◌==◌, ◌&&◌, ◌||◌, if◌then◌else◌,
}
use parallel_workspace_serve.Supervisor.Evacuation.DirtyPaths.{Bytes, or_first, has_prefix}

unfoldable pub split_slash : Bytes → List Bytes
split_slash [] = [] ∷ []
split_slash (c ∷ s) =
    let rest = split_slash s in if c == b'/' then [] ∷ rest else or_first (c ∷ []) rest

-- An empty component, or ".".
abbrev pub is_nothing : Bytes → Bool
is_nothing [] = true
is_nothing (c ∷ []) = c == b'.'
is_nothing (c ∷ d ∷ s) = false

-- "..".
abbrev pub is_parent : Bytes → Bool
is_parent [] = false
is_parent (c ∷ []) = false
is_parent (c ∷ d ∷ []) = c == b'.' && d == b'.'
is_parent (c ∷ d ∷ e ∷ s) = false

abbrev pub drop_last : List Bytes → List Bytes
drop_last [] = []
drop_last (c ∷ []) = []
drop_last (c ∷ d ∷ cs) = c ∷ drop_last (d ∷ cs)

-- The components that are left of an absolute path; `kept` are those so far.
unfoldable pub clean : List Bytes → List Bytes → List Bytes
clean kept [] = kept
clean kept (c ∷ cs) =
    clean (if is_nothing c then kept else (if is_parent c then drop_last kept else kept ++ c ∷ []))
      cs

abbrev pub with_slashes : List Bytes → Bytes
with_slashes [] = []
with_slashes (c ∷ cs) = b'/' ∷ (c ++ with_slashes cs)

abbrev pub abs_path : List Bytes → Bytes
abs_path [] = b'/' ∷ []
abs_path (c ∷ cs) = with_slashes (c ∷ cs)

unfoldable pub join_path : Bytes → Bytes → Bytes
unfolding clean split_slash
join_path root name = abs_path (clean [] (split_slash (root ++ b'/' ∷ name)))

-- filepath.Abs of a path that is absolute.
unfoldable pub abs_dir : Bytes → Bytes
unfolding clean split_slash
abs_dir root = abs_path (clean [] (split_slash root))

unfoldable pub bytes_eq : Bytes → Bytes → Bool
bytes_eq [] [] = true
bytes_eq [] (d ∷ t) = false
bytes_eq (c ∷ s) [] = false
bytes_eq (c ∷ s) (d ∷ t) = c == d && bytes_eq s t

unfoldable pub is_inside : Bytes → Bytes → Bool
unfolding bytes_eq
is_inside root target = bytes_eq target root || has_prefix target (root ++ b'/' ∷ [])
