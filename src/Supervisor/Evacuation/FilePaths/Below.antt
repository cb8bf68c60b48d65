-- ===== src/Supervisor/Evacuation/FilePaths/Below.antt =====
-- restore.go: what the test by the text of a path says of its components.
use mathlib.Core.List.{append_assoc, append-nil}
use parallel_workspace_serve.Prelude.{
  ℕ, true, false, List, [], ◌∷◌, ◌++◌, ◌==◌, ◌≡◌, ◌≢◌, inl, inr, arith, refl, sym, ap, ◌∙◌,
  Bool-cases,
}
use parallel_workspace_serve.Supervisor.Evacuation.DirtyPaths.{Bytes, or_first, has_prefix}
use parallel_workspace_serve.Supervisor.Evacuation.FilePaths.{
  split_slash, is_nothing, is_parent, drop_last, clean, with_slashes, abs_path, join_path, abs_dir,
  bytes_eq, is_inside,
}

abbrev pub NoSlash : Bytes → Type 0
NoSlash [] = Unit
NoSlash (c ∷ s) = (c ≢ b'/') × NoSlash s

-- A component that names an entry of its directory.
abbrev pub IsPlain : Bytes → Type 0
IsPlain c = NoSlash c × (is_nothing c ≡ false) × (is_parent c ≡ false)

abbrev pub AllPlain : List Bytes → Type 0
AllPlain [] = Unit
AllPlain (c ∷ cs) = IsPlain c × AllPlain cs

abbrev AllNoSlash : List Bytes → Type 0
AllNoSlash [] = Unit
AllNoSlash (c ∷ cs) = NoSlash c × AllNoSlash cs

or_first-AllNoSlash :
    (c : ℕ) (fields : List Bytes)
    → c ≢ b'/'
    → AllNoSlash fields
    → AllNoSlash (or_first (c ∷ []) fields)
or_first-AllNoSlash c [] n a = ((n, tt), tt)
or_first-AllNoSlash c (f ∷ fields) n a = ((n, a.0), a.1)

split_slash-AllNoSlash : (s : Bytes) → AllNoSlash (split_slash s)
unfolding split_slash
split_slash-AllNoSlash [] = (tt, tt)
split_slash-AllNoSlash (c ∷ s) = elim (Bool-cases (c == b'/')) [
  | inl e ↦ rw e (tt, split_slash-AllNoSlash s)
  | inr e ↦ rw e (or_first-AllNoSlash c (split_slash s) (ground arith) (split_slash-AllNoSlash s))
]

drop_last-AllPlain : (cs : List Bytes) → AllPlain cs → AllPlain (drop_last cs)
drop_last-AllPlain [] a = tt
drop_last-AllPlain (c ∷ []) a = tt
drop_last-AllPlain (c ∷ d ∷ cs) a = (a.0, drop_last-AllPlain (d ∷ cs) a.1)

append-AllPlain : (cs : List Bytes) (c : Bytes) → AllPlain cs → IsPlain c → AllPlain (cs ++ c ∷ [])
append-AllPlain [] c a p = (p, tt)
append-AllPlain (d ∷ cs) c a p = (a.0, append-AllPlain cs c a.1 p)

clean-AllPlain : (kept cs : List Bytes) → AllPlain kept → AllNoSlash cs → AllPlain (clean kept cs)
unfolding clean
clean-AllPlain kept [] a n = a
clean-AllPlain kept (c ∷ cs) a n = elim (Bool-cases (is_nothing c)) [
  | inl nothing ↦ rw nothing (clean-AllPlain kept cs a n.1)
  | inr named ↦ elim (Bool-cases (is_parent c)) [
    | inl up ↦ rw (named, up) (clean-AllPlain (drop_last kept) cs (drop_last-AllPlain kept a) n.1)
    | inr down ↦
        rw (named, down)
          (clean-AllPlain (kept ++ c ∷ []) cs (append-AllPlain kept c a (n.0, named, down)) n.1)
  ]
]

pub bytes_eq→eq : (s t : Bytes) → bytes_eq s t ≡ true → s ≡ t
unfolding bytes_eq
bytes_eq→eq [] [] h = refl
bytes_eq→eq [] (d ∷ t) h = cc
bytes_eq→eq (c ∷ s) [] h = cc
bytes_eq→eq (c ∷ s) (d ∷ t) h = ground (arith, bytes_eq→eq s t)

-- Two components agree if what follows the first of them starts with a slash or is empty.
component_agrees :
    (c r : Bytes) (cs : List Bytes) (rest : Bytes)
    → NoSlash c
    → NoSlash r
    → has_prefix (c ++ with_slashes cs) (r ++ b'/' ∷ rest) ≡ true
    → (c ≡ r) × (has_prefix (with_slashes cs) (b'/' ∷ rest) ≡ true)
component_agrees [] [] cs rest n m h = (refl, h)
component_agrees [] (d ∷ r) [] rest n m h = cc
component_agrees [] (d ∷ r) (x ∷ cs) rest n m h = absurd (m.0 (ground arith))
component_agrees (c ∷ s) [] cs rest n m h = absurd (n.0 (ground arith))
component_agrees (c ∷ s) (d ∷ r) cs rest n m h =
    let both : (c ≡ d) × (has_prefix (s ++ with_slashes cs) (r ++ b'/' ∷ rest) ≡ true) =
      ground arith in
    let (same, tail) = component_agrees s r cs rest n.1 m.1 both.1 in (ground arith, tail)

components_agree :
    (rc tc : List Bytes)
    → AllPlain rc
    → AllPlain tc
    → has_prefix (with_slashes tc) (with_slashes rc ++ b'/' ∷ []) ≡ true
    → (rest : List Bytes) × AllPlain rest × (tc ≡ rc ++ rest)
components_agree [] tc p q h = (tc, q, refl)
components_agree (r ∷ rs) [] p q h = cc
components_agree (r ∷ []) (c ∷ cs) p q h =
    let starts : has_prefix (c ++ with_slashes cs) (r ++ b'/' ∷ []) ≡ true =
      simp (append-nil) at h in
    let (same, tail) = component_agrees c r cs [] q.0.0 p.0.0 starts in (cs, q.1, ground arith)
components_agree (r ∷ x ∷ xs) (c ∷ cs) p q h =
    let more = (x ++ with_slashes xs) ++ b'/' ∷ [] in
    let starts : has_prefix (c ++ with_slashes cs) (r ++ b'/' ∷ more) ≡ true =
      rw (← append_assoc r (b'/' ∷ (x ++ with_slashes xs)) (b'/' ∷ [])) h in
    let (same, tail) = component_agrees c r cs more q.0.0 p.0.0 starts in
    let (rest, plain, e) = components_agree (x ∷ xs) cs p.1 q.1 tail in (rest, plain, ground arith)

-- The path with these components, and possibly more below them.
abbrev pub Below : List Bytes → Bytes → Type 0
Below rc path = (rest : List Bytes) × AllPlain rest × (path ≡ abs_path (rc ++ rest))

top_alone :
    (r : Bytes) (rs : List Bytes)
    → IsPlain r
    → has_prefix (b'/' ∷ []) (with_slashes (r ∷ rs) ++ b'/' ∷ []) ≡ true
    → ⊥
top_alone [] rs p h = cc
top_alone (c ∷ r) rs p h = cc

inside-Below :
    (rc tc : List Bytes)
    → AllPlain rc
    → AllPlain tc
    → has_prefix (abs_path tc) (abs_path rc ++ b'/' ∷ []) ≡ true
    → Below rc (abs_path tc)
inside-Below [] [] p q h = cc
inside-Below [] ([] ∷ cs) p q h = cc
inside-Below [] ((d ∷ c) ∷ cs) p q h = absurd (q.0.0.0 (ground arith))
inside-Below (r ∷ rs) [] p q h = absurd (top_alone r rs p.0 h)
inside-Below (r ∷ rs) (c ∷ cs) p q h =
    let (rest, plain, e) = components_agree (r ∷ rs) (c ∷ cs) p q h in (rest, plain, ap abs_path e)

abbrev pub components : Bytes → List Bytes
components root = clean [] (split_slash root)

pub components-AllPlain : (s : Bytes) → AllPlain (components s)
components-AllPlain s = clean-AllPlain [] (split_slash s) tt (split_slash-AllNoSlash s)

-- A path that passes the test has the components of the directory, and then names only: it is the
-- directory or lies below it.
pub is_inside-Below :
    (dir root name : Bytes)
    → is_inside (abs_dir dir) (join_path root name) ≡ true
    → Below (components dir) (join_path root name)
unfolding is_inside abs_dir join_path
is_inside-Below dir root name h = elim (Bool-cases (bytes_eq (join_path root name) (abs_dir dir))) [
  | inl e ↦ (
    [],
    tt,
    bytes_eq→eq (join_path root name) (abs_dir dir) e
        ∙ ap abs_path (sym (append-nil (components dir))),
  )
  | inr e ↦
      inside-Below (components dir) (components (root ++ b'/' ∷ name)) (components-AllPlain dir)
        (components-AllPlain (root ++ b'/' ∷ name)) (rw e at h)
]
