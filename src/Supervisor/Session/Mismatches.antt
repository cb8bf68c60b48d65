-- ===== src/Supervisor/Session/Mismatches.antt =====
-- model.go: one report for each change to a model that was not configured.
use parallel_workspace_serve.Prelude.{
  ℕ, ◌+◌, String, Bool, false, List, [], ◌∷◌, Option, none, some, ◌||◌, str_eq, eq_iff,
  if◌then◌else◌, ◌≡◌, arith, refl,
}
use parallel_workspace_serve.Supervisor.Session.Model.{
  Reading, turn_model, turn_failed, is_silent, model_matches, check, watch,
}

-- The models that were read, with neither errors nor turns that ran on no model.
abbrev pub told : List Reading → List String
told [] = []
told (turn_failed ∷ ts) = told ts
told (turn_model m ∷ ts) = if is_silent m then told ts else m ∷ told ts

abbrev pub is_same : Option String → String → Bool
is_same none m = false
is_same (some p) m = str_eq m p

-- How often a list of models changes to one that does not pass, by the model before.
abbrev pub switches : (String → Bool) → Option String → List String → ℕ
switches passes before [] = 0
switches passes before (m ∷ ms) =
    (if passes m || is_same before m then 0 else 1) + switches passes (some m) ms

not_silent : (m : String) → is_silent m ≡ false → str_eq m "" ≡ false
unfolding is_silent
not_silent m h = ground arith

module _ (to_lower trim_space : String → String) (contains : String → String → Bool)
    (expected : String) where
  abbrev pub passes : String → Bool
  passes m = model_matches to_lower trim_space contains expected m

  -- What the field `reported` says of the model before: the same one if it was reported, and
  -- nothing else where none was or it passed.
  abbrev Follows : Option String → String → Type 0
  Follows none reported = reported ≡ ""
  Follows (some p) reported = if passes p then reported ≡ "" else reported ≡ p

  watch-Follows :
      (ts : List Reading) (before : Option String) (reported : String)
      → str_eq expected "" ≡ false
      → Follows before reported
      → watch to_lower trim_space contains expected reported ts ≡ switches passes before (told ts)
  unfolding watch check
  watch-Follows [] before reported e f = refl
  watch-Follows (turn_failed ∷ ts) before reported e f =
      omega (arith, watch-Follows ts before reported e f)
  watch-Follows (turn_model m ∷ ts) none reported e f = ground (
    arith,
    eq_iff m reported,
    not_silent m,
    watch-Follows ts none reported e f,
    watch-Follows ts (some m) "" e,
    watch-Follows ts (some m) m e,
  )
  watch-Follows (turn_model m ∷ ts) (some p) reported e f = ground (
    arith,
    eq_iff m reported,
    eq_iff m p,
    not_silent m,
    watch-Follows ts (some p) reported e f,
    watch-Follows ts (some m) "" e,
    watch-Follows ts (some m) m e,
  )

  -- Where a model is configured, the number of reports over any readings, errors among them, is
  -- that of the changes to a model that does not answer to the configured one, counted over the
  -- turns that ran on a model: neither a model that is read again nor a turn with no model counts.
  pub watch-switches :
      (ts : List Reading)
      → str_eq expected "" ≡ false
      → watch to_lower trim_space contains expected "" ts ≡ switches passes none (told ts)
  watch-switches ts e = watch-Follows ts none "" e refl
