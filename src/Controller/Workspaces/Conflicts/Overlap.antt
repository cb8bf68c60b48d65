-- ===== src/Controller/Workspaces/Conflicts/Overlap.antt =====
-- conflict.go: which files a conflict names.
use parallel_workspace_serve.Prelude.{
  ◌+◌, String, Bool, List, [], ◌∷◌, ◌++◌, none, some, ◌&&◌, ◌||◌, not, str_eq, eq_iff, eq_refl,
  if◌then◌else◌, ltb, length, any, keep_if, count_if, Dict, lookup, insert, lookup-insert, ◌≡◌,
  arith, refl, Bool-cases, inl, inr,
}
use parallel_workspace_serve.Controller.Types.{BlackboardEntry}
use parallel_workspace_serve.Controller.Workspaces.Blackboard.{insert_entry, sort_entries}
use parallel_workspace_serve.Controller.Workspaces.Conflicts.{
  has_text, or_no_branches, add_files, branches_by_file, contested, insert_file, sort_files,
  merged_entries, file_conflict_detail,
}

-- The branches of the entries that change a file.
abbrev branches_of : String → List BlackboardEntry → List String
branches_of f [] = []
branches_of f (e ∷ entries) =
    if has_text f e.changed_files then e.branch ∷ branches_of f entries else branches_of f entries

abbrev once : Bool → String → List String
once b s = if b then s ∷ [] else []

append-nil : (xs : List String) → xs ++ [] ≡ xs
append-nil [] = refl
append-nil (x ∷ xs) = cc (append-nil xs)

append_assoc : (xs ys zs : List String) → (xs ++ ys) ++ zs ≡ xs ++ (ys ++ zs)
append_assoc [] ys zs = refl
append_assoc (x ∷ xs) ys zs = cc (append_assoc xs ys zs)

lookup-add_files :
    (f branch : String) (seen files : List String) (d : Dict (List String))
    → or_no_branches (lookup f (add_files branch seen files d))
      ≡ or_no_branches (lookup f d) ++ once (has_text f files && not (has_text f seen)) branch
unfolding add_files
lookup-add_files f branch seen [] d = cc (append-nil (or_no_branches (lookup f d)))
lookup-add_files f branch seen (g ∷ files) d =
    let d' = insert g (or_no_branches (lookup g d) ++ branch ∷ []) d in
    ground (
      arith,
      eq_iff g f,
      lookup-insert g f (or_no_branches (lookup g d) ++ branch ∷ []) d,
      append-nil (or_no_branches (lookup f d) ++ branch ∷ []),
      lookup-add_files f branch seen files d,
      lookup-add_files f branch (g ∷ seen) files d',
    )

lookup-branches_by_file :
    (f : String) (entries : List BlackboardEntry) (d : Dict (List String))
    → or_no_branches (lookup f (branches_by_file entries d))
      ≡ or_no_branches (lookup f d) ++ branches_of f entries
unfolding branches_by_file
lookup-branches_by_file f [] d = cc (append-nil (or_no_branches (lookup f d)))
lookup-branches_by_file f (e ∷ entries) d = ground (
  arith,
  lookup-add_files f e.branch [] e.changed_files d,
  append-nil (or_no_branches (lookup f d)),
  append_assoc (or_no_branches (lookup f d)) (e.branch ∷ []) (branches_of f entries),
  lookup-branches_by_file f entries (add_files e.branch [] e.changed_files d),
)

-- A key stands once.
abbrev Unique : Dict (List String) → Type 0
Unique [] = Unit
Unique ((f, branches) ∷ d) = (lookup f d ≡ none) × Unique d

insert-Unique :
    (f : String) (v : List String) (d : Dict (List String)) → Unique d → Unique (insert f v d)
unfolding insert lookup
insert-Unique f v [] u = (refl, tt)
insert-Unique f v ((g, w) ∷ d) u =
    ground (arith, eq_iff g f, eq_iff f g, lookup-insert f g v d, insert-Unique f v d)

add_files-Unique :
    (branch : String) (seen files : List String) (d : Dict (List String))
    → Unique d
    → Unique (add_files branch seen files d)
unfolding add_files
add_files-Unique branch seen [] d u = u
add_files-Unique branch seen (f ∷ files) d u = elim (Bool-cases (has_text f seen)) [
  | inl met ↦ rw met (add_files-Unique branch seen files d u)
  | inr fresh ↦ rw fresh (
      add_files-Unique branch (f ∷ seen) files
        (insert f (or_no_branches (lookup f d) ++ branch ∷ []) d)
        (insert-Unique f (or_no_branches (lookup f d) ++ branch ∷ []) d u))
]

branches_by_file-Unique :
    (entries : List BlackboardEntry) (d : Dict (List String))
    → Unique d
    → Unique (branches_by_file entries d)
unfolding branches_by_file
branches_by_file-Unique [] d u = u
branches_by_file-Unique (e ∷ entries) d u =
    branches_by_file-Unique entries (add_files e.branch [] e.changed_files d)
      (add_files-Unique e.branch [] e.changed_files d u)

abbrev pub names_file : String → List (String × List String) → Bool
names_file f files = any (λ (e : String × List String). str_eq e.0 f) files

-- The test of the loop over the map.
abbrev is_contested : String → List String → Bool
is_contested own branches = ltb 1 (length branches) && has_text own branches

names_file-contested :
    (f own : String) (d : Dict (List String))
    → Unique d
    → names_file f (contested own d) ≡ is_contested own (or_no_branches (lookup f d))
unfolding contested lookup
names_file-contested f own [] u = refl
names_file-contested f own ((g, branches) ∷ d) u =
    ground (arith, eq_iff g f, names_file-contested f own d)

names_file-insert_file :
    (f : String) (a : String × List String) (files : List (String × List String))
    → names_file f (insert_file a files) ≡ str_eq a.0 f || names_file f files
unfolding insert_file
names_file-insert_file f a [] = refl
names_file-insert_file f a (b ∷ files) = ground (arith, names_file-insert_file f a files)

names_file-sort_files :
    (f : String) (files : List (String × List String))
    → names_file f (sort_files files) ≡ names_file f files
unfolding sort_files
names_file-sort_files f [] = refl
names_file-sort_files f (a ∷ files) =
    ground (arith, names_file-insert_file f a (sort_files files), names_file-sort_files f files)

-- Neither the number of branches nor whether one is among them depends on the order.
is_contested-insert_entry :
    (f own : String) (a : BlackboardEntry) (entries : List BlackboardEntry)
    → (length (branches_of f (insert_entry a entries)) ≡ length (branches_of f (a ∷ entries)))
      × (has_text own (branches_of f (insert_entry a entries))
          ≡ has_text own (branches_of f (a ∷ entries)))
unfolding insert_entry
is_contested-insert_entry f own a [] = (refl, refl)
is_contested-insert_entry f own a (b ∷ entries) =
    ground (arith, is_contested-insert_entry f own a entries)

is_contested-sort_entries :
    (f own : String) (entries : List BlackboardEntry)
    → (length (branches_of f (sort_entries entries)) ≡ length (branches_of f entries))
      × (has_text own (branches_of f (sort_entries entries)) ≡ has_text own (branches_of f entries))
unfolding sort_entries
is_contested-sort_entries f own [] = (refl, refl)
is_contested-sort_entries f own (a ∷ entries) = ground (
  arith,
  is_contested-insert_entry f own a (sort_entries entries),
  is_contested-sort_entries f own entries,
)

-- Another branch changes the file.
abbrev pub changed_elsewhere : String → String → List BlackboardEntry → Bool
changed_elsewhere f own entries =
    any (λ (e : BlackboardEntry). not (str_eq e.branch own) && has_text f e.changed_files) entries

-- The branches of the others and of this one, before they are sorted.
abbrev unsorted : List BlackboardEntry → BlackboardEntry → List BlackboardEntry
unsorted entries own =
    keep_if (λ (e : BlackboardEntry). not (str_eq e.branch own.branch)) entries ++ own ∷ []

unsorted-branches :
    (f : String) (entries : List BlackboardEntry) (own : BlackboardEntry)
    → (has_text own.branch (branches_of f (unsorted entries own)) ≡ has_text f own.changed_files)
      × (length (branches_of f (unsorted entries own))
          ≡ count_if
              (λ (e : BlackboardEntry).
                not (str_eq e.branch own.branch) && has_text f e.changed_files)
              entries
            + (if has_text f own.changed_files then 1 else 0))
unsorted-branches f [] own = ground (arith, eq_refl own.branch)
unsorted-branches f (e ∷ entries) own = ground (arith, unsorted-branches f entries own)

count_if-any :
    (p : BlackboardEntry → Bool) (entries : List BlackboardEntry)
    → ltb 0 (count_if p entries) ≡ any p entries
count_if-any p [] = refl
count_if-any p (e ∷ entries) = ground (arith, count_if-any p entries)

-- The conflict of a branch names a file exactly if the branch is worked on and changes it, and an
-- active entry of another branch changes it too.
pub file_conflict_detail-names :
    (f : String) (entries : List BlackboardEntry) (own : BlackboardEntry)
    → names_file f (file_conflict_detail entries (some own))
      ≡ own.active && has_text f own.changed_files && changed_elsewhere f own.branch entries
unfolding file_conflict_detail merged_entries lookup
file_conflict_detail-names f entries own =
    let d = branches_by_file (merged_entries entries own) [] in
    ground (
      arith,
      names_file-sort_files f (contested own.branch d),
      names_file-contested f own.branch d
          (branches_by_file-Unique (merged_entries entries own) [] tt),
      lookup-branches_by_file f (merged_entries entries own) [],
      is_contested-sort_entries f own.branch (unsorted entries own),
      unsorted-branches f entries own,
      count_if-any
          (λ (e : BlackboardEntry). not (str_eq e.branch own.branch) && has_text f e.changed_files)
          entries,
    )
