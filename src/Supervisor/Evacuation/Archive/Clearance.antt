-- ===== src/Supervisor/Evacuation/Archive/Clearance.antt =====
-- restore.go: where the captured files can be written.
use parallel_workspace_serve.Prelude.{
  true, none, some, List, [], ◌∷◌, any, ◌≡◌, ◌≢◌, inl, inr, refl, ◌∙◌, ap, arith, Bool-cases,
  if◌then◌else◌, ◌++◌, false, sym, subst, Bool,
}
use parallel_workspace_serve.Supervisor.Evacuation.DirtyPaths.{Bytes, has_prefix}
use parallel_workspace_serve.Supervisor.Evacuation.FilePaths.{join_path, bytes_eq}
use parallel_workspace_serve.Supervisor.Evacuation.FilePaths.Below.{bytes_eq→eq}
use parallel_workspace_serve.Supervisor.Evacuation.Archive.{other, Files, content, body_of}

-- A directory on the way to a path, both of them clean.
abbrev pub is_above : Bytes → Bytes → Bool
is_above q path = has_prefix path (q ++ b'/' ∷ [])

-- No file stands where a directory on the way belongs, and no directory where the file does.
abbrev pub Clear : Bytes → Files → Type 0
Clear path files =
    ((q : Bytes) → is_above q path ≡ true → content files q ≡ none) × (files path ≢ some other)

-- The files of these paths can all be laid over `base`: for each the way is clear, and none of
-- them is a directory on the way to another.
pub record Layable (Target : Bytes → Type 0) (base : Files) : Type 0 where
  pub clear : (t : Bytes) → Target t → Clear t base
  pub apart : (t u : Bytes) → Target t → Target u → is_above t u ≡ false

-- What stands at a captured path is a target.
abbrev pub Covered : (Bytes → Type 0) → Bytes → Files → List Bytes → Type 0
Covered Target root over [] = Unit
Covered Target root over (name ∷ names) =
    ((body : Bytes) → content over (join_path root name) ≡ some body → Target (join_path root name))
    × Covered Target root over names

-- The regular files that are captured.
abbrev pub IsCaptured : Bytes → List Bytes → Files → Bytes → Type 0
IsCaptured root names over t =
    (any (λ name. bytes_eq t (join_path root name)) names ≡ true)
    × ((body : Bytes) × (content over t ≡ some body))

pub bytes_eq_refl : (s : Bytes) → bytes_eq s s ≡ true
unfolding bytes_eq
bytes_eq_refl [] = refl
bytes_eq_refl (c ∷ s) = ground (arith, bytes_eq_refl s)

part-Covered :
    (root : Bytes) (every names : List Bytes) (over : Files)
    → ((t : Bytes)
        → any (λ name. bytes_eq t (join_path root name)) names ≡ true
        → any (λ name. bytes_eq t (join_path root name)) every ≡ true)
    → Covered (IsCaptured root every over) root over names
part-Covered root every [] over sub = tt
part-Covered root every (name ∷ names) over sub = (
  λ body e.
      (sub (join_path root name) (ground (arith, bytes_eq_refl (join_path root name))), (body, e)),
  part-Covered root every names over (λ t h. sub t (ground arith)),
)

pub IsCaptured-Covered :
    (root : Bytes) (names : List Bytes) (over : Files)
    → Covered (IsCaptured root names over) root over names
IsCaptured-Covered root names over = part-Covered root names names over (λ t h. h)

-- Writing one of the targets leaves the others clear.
pub write-Layable :
    (Target : Bytes → Type 0) (target body : Bytes) (base g : Files)
    → Layable Target base
    → Target target
    → ((q : Bytes) → content g q ≡ (if bytes_eq q target then some body else content base q))
    → ((q : Bytes) → q ≢ target → is_above q target ≡ false → g q ≡ base q)
    → Layable Target g
write-Layable Target target body base g lay is written nodes = record {
  clear = λ t i. (
    (λ q above. elim (Bool-cases (bytes_eq q target)) [
      | inl same ↦
          let e : is_above target t ≡ true =
            subst (λ x. is_above x t ≡ true) (bytes_eq→eq q target same) above in
          absurd (ground (arith, e, lay.apart target t is i))
      | inr differs ↦ ground (arith, written q, (lay.clear t i).0 q above)
    ]),
    (λ e. elim (Bool-cases (bytes_eq t target)) [
      | inl same ↦ absurd (ground (arith, written t, ap body_of e))
      | inr differs ↦ (lay.clear t i).1 (
          sym (
            nodes t
              (λ p.
                ground
                  (arith, bytes_eq_refl target, subst (λ x. bytes_eq x target ≡ false) p differs))
              (lay.apart t target i is))
          ∙ e)
    ]),
  );
  apart = lay.apart;
}
