-- ===== src/Supervisor/Session/Model.antt =====
-- model.go: `ModelMonitor`, which reports a turn that ran on another model than the configured one.
use parallel_workspace_serve.Prelude.{
  ℕ, ◌+◌, String, Bool, true, false, List, [], ◌∷◌, ◌||◌, str_eq, if◌then◌else◌,
}

-- What `Turn` gives: an error, or the model of the turn, "" where none is recorded.
pub data Reading : Type 0 where
  turn_model : String → Reading
  turn_failed : Reading

abbrev pub synthetic_model : String
synthetic_model = "<synthetic>"

-- A turn that ran on no model.
unfoldable pub is_silent : String → Bool
is_silent actual = str_eq actual "" || str_eq actual synthetic_model

-- What strings.ToLower, TrimSpace and Contains do is an argument.
module _ (to_lower trim_space : String → String) (contains : String → String → Bool) where
  unfoldable pub model_matches : String → String → Bool
  model_matches expected actual =
      let e = to_lower (trim_space expected) in
      let a = to_lower (trim_space actual) in contains a e || contains e a

  -- `Check`: the field `reported` after it, and whether it notifies (where Notify is set).
  unfoldable pub check : String → String → Reading → String × Bool
  check expected reported turn_failed = (reported, false)
  check expected reported (turn_model actual) =
      if str_eq expected ""
      then (reported, false)
      else (if is_silent actual
          then (reported, false)
          else (if model_matches expected actual
              then ("", false)
              else (if str_eq actual reported then (reported, false) else (actual, true))))

  -- `Watch`: the number of notifications over the ticks.
  unfoldable pub watch : String → String → List Reading → ℕ
  watch expected reported [] = 0
  watch expected reported (t ∷ ts) =
      let (reported', notifies) = check expected reported t in
      (if notifies then 1 else 0) + watch expected reported' ts
