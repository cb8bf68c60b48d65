-- ===== src/Supervisor/Testrun/Reverify.antt =====
-- heal.go: what the next attempt runs again.
use parallel_workspace_serve.Prelude.{
  ℕ, String, Bool, true, List, [], ◌∷◌, ◌++◌, not, any, count_if, str_eq, eq_iff, ◌&&◌,
  if◌then◌else◌, ◌≡◌, arith, refl, Bool-cases, inl, inr,
}
use parallel_workspace_serve.Prelude.Outcome.{Outcome, ok, err}
use parallel_workspace_serve.Supervisor.Testrun.Runner.{
  Config, Failure, Step, RunResult, Run, RunTrace, RunEnv, step_unit, is_some_argv, step,
  step_served, unit_suite, e2e_suite, execute_suites, execute,
}
use parallel_workspace_serve.Supervisor.Testrun.Passing.{has_step}
use parallel_workspace_serve.Supervisor.Testrun.Heal.{next_only, failed_tests, failed_tests_from}

abbrev pub has_name : String → List String → Bool
has_name name names = any (λ m. str_eq m name) names

abbrev pub has_failure : String → List Failure → Bool
has_failure name failures = any (λ (f : Failure). str_eq f.test_name name) failures

-- How often a name stands in a list.
abbrev pub times : String → List String → ℕ
times name names = count_if (λ m. str_eq m name) names

failed_tests_from-times :
    (seen : List String) (failures : List Failure) (name : String)
    → times name (failed_tests_from seen failures) ≡ (
        if has_failure name failures && not (str_eq name "") && not (has_name name seen)
        then 1
        else 0)
unfolding failed_tests_from
failed_tests_from-times seen [] name = refl
failed_tests_from-times seen (f ∷ failures) name = elim (Bool-cases (str_eq f.test_name name)) [
  | inl same ↦ ground (
    arith,
    eq_iff f.test_name name,
    failed_tests_from-times seen failures name,
    failed_tests_from-times (f.test_name ∷ seen) failures name,
  )
  | inr other ↦ ground (
    arith,
    failed_tests_from-times seen failures name,
    failed_tests_from-times (f.test_name ∷ seen) failures name,
  )
]

-- The filter of the next attempt names each failing test that has a name exactly once, and nothing
-- else.
pub failed_tests-times :
    (failures : List Failure) (name : String)
    → times name (failed_tests failures)
      ≡ (if has_failure name failures && not (str_eq name "") then 1 else 0)
unfolding failed_tests
failed_tests-times failures name = ground (arith, failed_tests_from-times [] failures name)

abbrev pub unit_failed : RunResult → Bool
unit_failed res = any (λ (s : Step). str_eq s.name step_unit && s.failed) res.steps

has_step-snoc :
    (steps : List Step) (s : Step) (name : String)
    → has_step name steps ≡ true
    → has_step name (steps ++ s ∷ []) ≡ true
has_step-snoc [] s name h = cc
has_step-snoc (x ∷ steps) s name h = ground (arith, has_step-snoc steps s name)

module _ (env : RunEnv) (cfg : Config) (collect_failures : List Step → List Failure) where
  abbrev pub RanUnit : Outcome RunTrace RunResult → Type 0
  RanUnit (ok res t) = has_step step_unit res.steps ≡ true
  RanUnit (err e t) = Unit

  step-RanUnit :
      (dir name : String) (argv : List String) (res : RunResult) (t : RunTrace)
      → has_step step_unit res.steps ≡ true
      → RanUnit (step env cfg collect_failures dir name argv res t)
  unfolding step
  step-RanUnit dir name argv res t h = ground (
    arith,
    has_step-snoc res.steps
        (record {
          name = name;
          argv = argv;
          output = (env.exec t argv).0;
          failed = (env.exec t argv).1;
        })
        step_unit,
  )

  e2e_suite-RanUnit :
      (r : Run) (res : RunResult) (t : RunTrace)
      → has_step step_unit res.steps ≡ true
      → RanUnit (e2e_suite env cfg collect_failures r res t)
  unfolding e2e_suite step_served
  e2e_suite-RanUnit r res t h = grind (arith, step-RanUnit)

  unit_suite-RanUnit :
      (r : Run) (res : RunResult) (t : RunTrace)
      → res.steps ≡ []
      → r.only_tests ≡ []
      → is_some_argv cfg.unit_test ≡ true
      → RanUnit (unit_suite env cfg collect_failures r res t)
  unfolding unit_suite step
  unit_suite-RanUnit r res t e n u = ground arith

  -- Where a unit suite is declared, and it failed in an attempt, the next attempt, narrowed by
  -- `nextOnly`, runs the unit suite again whenever it ends without an error.
  pub execute_reverifies :
      (res : RunResult) (id : String) (attempt : ℕ) (t : RunTrace)
      → is_some_argv cfg.unit_test ≡ true
      → unit_failed res ≡ true
      → RanUnit (
          execute env cfg collect_failures
            (record { id = id; attempt = attempt; only_tests = next_only res })
            t)
  unfolding execute execute_suites next_only
  execute_reverifies res id attempt t u f = grind (arith, unit_suite-RanUnit, e2e_suite-RanUnit)
