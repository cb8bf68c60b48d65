-- ===== src/Supervisor/Evacuation/DirtyPaths/Roundtrip.antt =====
-- snapshot.go: `dirtyPaths` reads back what git prints.
use mathlib.Core.Path.{◌≡⟨◌⟩◌, ◌∎}
use parallel_workspace_serve.Prelude.{
  ℕ, ◌<◌, true, false, List, [], ◌∷◌, ◌++◌, ◌==◌, ◌||◌, length, Option, none, some, ◌≡◌, ◌≢◌, arith,
  refl, ap, ◌∙◌, ◌⊎◌, Bool,
}
use parallel_workspace_serve.Supervisor.Evacuation.DirtyPaths.{
  Bytes, split_nul, keep_path, paths_from, dirty_paths,
}

-- An entry of `git status --porcelain -z`: two status bytes, the path, and for a rename or a copy
-- the path that it came from.
pub record Entry : Type 0 where
  pub index : ℕ
  pub work_tree : ℕ
  pub path : Bytes
  pub from : Option Bytes

abbrev pub NoNul : Bytes → Type 0
NoNul [] = Unit
NoNul (c ∷ s) = (c ≢ 0) × NoNul s

abbrev pub is_move : ℕ → Bool
is_move c = c == b'R' || c == b'C'

-- A rename or a copy stands in the index or in the work tree.
abbrev pub HasSource : ℕ → ℕ → Option Bytes → Type 0
HasSource index work_tree none = (is_move index || is_move work_tree) ≡ false
HasSource index work_tree (some path) = ((is_move index || is_move work_tree) ≡ true) × NoNul path

-- What git guarantees of an entry: no NUL in it, a path that is not empty, and a second path for a
-- rename or a copy, in the index or in the work tree, and for nothing else.
pub record IsEntry (e : Entry) : Type 0 where
  pub index_nul : e.index ≢ 0
  pub work_tree_nul : e.work_tree ≢ 0
  pub path_nul : NoNul e.path
  pub path_some : 0 < length e.path
  pub source : HasSource e.index e.work_tree e.from

-- No rename or copy that only the work tree has, which git finds for a file that is to be added.
abbrev pub NoneMovedUnstaged : List Entry → Type 0
NoneMovedUnstaged [] = Unit
NoneMovedUnstaged (e ∷ es) =
    ((is_move e.index ≡ true) ⊎ (is_move e.work_tree ≡ false)) × NoneMovedUnstaged es

abbrev pub AllEntries : List Entry → Type 0
AllEntries [] = Unit
AllEntries (e ∷ es) = IsEntry e × AllEntries es

abbrev pub print_source : Option Bytes → Bytes → Bytes
print_source none rest = rest
print_source (some path) rest = path ++ 0 ∷ rest

-- What git prints.
abbrev pub print : List Entry → Bytes
print [] = []
print (e ∷ es) = e.index ∷ e.work_tree ∷ b' ' ∷ (e.path ++ 0 ∷ print_source e.from (print es))

-- The paths to capture: all but those of the editor server.
abbrev pub captured : List Entry → List Bytes
captured [] = []
captured (e ∷ es) = keep_path e.path (captured es)

pub split_nul-append : (s out : Bytes) → NoNul s → split_nul (s ++ 0 ∷ out) ≡ s ∷ split_nul out
unfolding split_nul
split_nul-append [] out n = refl
split_nul-append (c ∷ s) out n = ground (arith, split_nul-append s out n.1)

-- One entry's fields, read by the loop.
paths_from-record :
    (index work_tree : ℕ) (path : Bytes) (fields : List Bytes)
    → 0 < length path
    → paths_from false ((index ∷ work_tree ∷ b' ' ∷ path) ∷ fields)
      ≡ keep_path path (paths_from (index == b'R' || index == b'C') fields)
unfolding paths_from
paths_from-record index work_tree path fields h = ground arith

fields_of-entry :
    (index work_tree : ℕ) (path out : Bytes)
    → index ≢ 0
    → work_tree ≢ 0
    → NoNul path
    → split_nul (index ∷ work_tree ∷ b' ' ∷ (path ++ 0 ∷ out))
      ≡ (index ∷ work_tree ∷ b' ' ∷ path) ∷ split_nul out
fields_of-entry index work_tree path out i w n =
    split_nul-append (index ∷ work_tree ∷ b' ' ∷ path) out (i, (w, ((λ e. ground arith), n)))

paths_from-source :
    (c work_tree : ℕ) (from : Option Bytes) (out : Bytes)
    → HasSource c work_tree from
    → (is_move c ≡ true) ⊎ (is_move work_tree ≡ false)
    → paths_from (is_move c) (split_nul (print_source from out)) ≡ paths_from false (split_nul out)
unfolding paths_from
paths_from-source c work_tree none out h staged =
    let same : is_move c ≡ false = ground arith in rw same
paths_from-source c work_tree (some path) out (moved, n) staged =
    let same : is_move c ≡ true = ground arith in rw (same, split_nul-append path out n)

-- From what git prints for entries that it can print, none of which is a rename or a copy in the
-- work tree alone, `dirtyPaths` gives their paths in order, with neither the sources of renames and
-- copies nor the paths of the editor server.
pub dirty_paths-print :
    (es : List Entry) → AllEntries es → NoneMovedUnstaged es → dirty_paths (print es) ≡ captured es
unfolding dirty_paths
dirty_paths-print [] h k = unfold paths_from split_nul in refl
dirty_paths-print (e ∷ es) (entry, rest) (staged, others) =
    paths_from false (split_nul (print (e ∷ es)))
    ≡⟨ ap (paths_from false) (
        fields_of-entry e.index e.work_tree e.path (print_source e.from (print es)) entry.index_nul
          entry.work_tree_nul entry.path_nul) ⟩
      paths_from false
        ((e.index ∷ e.work_tree ∷ b' ' ∷ e.path) ∷ split_nul (print_source e.from (print es)))
    ≡⟨ paths_from-record e.index e.work_tree e.path (split_nul (print_source e.from (print es)))
        entry.path_some ⟩
      keep_path e.path (
        paths_from (e.index == b'R' || e.index == b'C')
          (split_nul (print_source e.from (print es))))
    ≡⟨ ap (keep_path e.path) (
        paths_from-source e.index e.work_tree e.from (print es) entry.source staged
        ∙ dirty_paths-print es rest others) ⟩
      captured (e ∷ es) ∎
