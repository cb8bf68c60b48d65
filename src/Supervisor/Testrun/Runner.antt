-- ===== src/Supervisor/Testrun/Runner.antt =====
-- supervisor/internal/testrun/runner.go: one run of the declared suites.
-- Commands, the file system, the object store and the session are an environment that answers each
-- call by the calls before it, the newest first.

use parallel_workspace_serve.Prelude.{
  ℕ, String, Bool, true, false, List, [], ◌∷◌, ◌++◌, Option, ◌&&◌, not, str_eq, if◌then◌else◌,
}
use parallel_workspace_serve.Prelude.Outcome.{Outcome, M, ok, err, return, fail, ◌>>=◌}

-- The fields of repocfg.Config that a run reads.
pub record Config : Type 0 where
  pub app : List String
  pub unit_test : List String
  pub e2e_test : List String
  pub e2e_test_filter : List String

pub data FailureCategory : Type 0 where
  implementation_defect flaky_test environment_issue : FailureCategory

pub record Failure : Type 0 where
  pub test_name : String
  pub message : String
  pub stack_trace : String
  pub screenshot_key : String
  pub category : FailureCategory

pub record Step : Type 0 where
  pub name : String
  pub argv : List String
  pub output : String
  pub failed : Bool

pub record RunResult : Type 0 where
  pub run_id : String
  pub attempt : ℕ
  pub passed : Bool
  pub failures : List Failure
  pub report_url : String
  pub steps : List Step

pub record Run : Type 0 where
  pub id : String
  pub attempt : ℕ
  pub only_tests : List String

pub data RunCall : Type 0 where
  -- RemoveAll and MkdirAll of a run's directory.
  prepare : String → RunCall
  exec : List String → RunCall
  -- The application was started, or could not be.
  serve : List String → Bool → RunCall
  stop : RunCall
  -- A log file, by the run and the step.
  write_log : String → String → RunCall
  publish : String → RunCall
  request : String → RunCall
  notify : String → RunResult → RunCall

abbrev pub RunTrace : Type 0
RunTrace = List RunCall

-- A Bool answer tells whether the call succeeded.
pub record RunEnv : Type 0 where
  pub prepare : RunTrace → String → Bool
  -- The combined output, and whether the command failed.
  pub exec : RunTrace → List String → String × Bool
  pub serve : RunTrace → List String → Bool
  pub write_log : RunTrace → String → String → Bool
  pub publish : RunTrace → String → Option String
  pub request : RunTrace → String → Bool

abbrev pub step_unit : String
step_unit = "unit"

abbrev pub step_e2e : String
step_e2e = "e2e"

abbrev pub is_some_argv : List String → Bool
is_some_argv [] = false
is_some_argv (arg ∷ argv) = true

-- `collectFailures` turns the steps into failures; any function will do here.
module _ (env : RunEnv) (cfg : Config) (collect_failures : List Step → List Failure) where
  unfoldable pub e2e_argv : List String → List String
  e2e_argv only =
      if is_some_argv only && is_some_argv cfg.e2e_test_filter
      then cfg.e2e_test_filter ++ only
      else cfg.e2e_test

  unfoldable pub step : String → String → List String → RunResult → M RunTrace RunResult
  step dir name argv res t =
      let (out, failed) = env.exec t argv in
      let ran = RunCall.exec argv ∷ t in
      let logged = RunCall.write_log dir name ∷ ran in
      let res' = record res {
        steps =
            res.steps ++ record { name = name; argv = argv; output = out; failed = failed } ∷ [];
        passed = if failed then false else res.passed;
      } in
      if env.write_log ran dir name then ok res' logged else err "log not written" logged

  -- `defer stop()`: the application is stopped however the step ends.
  abbrev pub stopping : Outcome RunTrace RunResult → Outcome RunTrace RunResult
  stopping (ok res t) = ok res (RunCall.stop ∷ t)
  stopping (err e t) = err e (RunCall.stop ∷ t)

  unfoldable pub step_served : String → List String → RunResult → M RunTrace RunResult
  step_served dir e2e res t = elim (is_some_argv cfg.app) [
    | false ↦ step dir step_e2e e2e res t
    | true ↦ elim (env.serve t cfg.app) [
      | false ↦ err "application not started" (RunCall.serve cfg.app false ∷ t)
      | true ↦ stopping (step dir step_e2e e2e res (RunCall.serve cfg.app true ∷ t))
    ]
  ]

  unfoldable pub unit_suite : Run → RunResult → M RunTrace RunResult
  unit_suite run res = elim (is_some_argv cfg.unit_test && not (is_some_argv run.only_tests)) [
    | true ↦ step run.id step_unit cfg.unit_test res
    | false ↦ return res
  ]

  unfoldable pub e2e_suite : Run → RunResult → M RunTrace RunResult
  e2e_suite run res = elim (is_some_argv (e2e_argv run.only_tests)) [
    | false ↦ return res
    | true ↦ step_served run.id (e2e_argv run.only_tests) res
  ]

  abbrev pub fresh_result : Run → RunResult
  fresh_result run = record {
    run_id = run.id;
    attempt = run.attempt;
    passed = true;
    failures = [];
    report_url = "";
    steps = [];
  }

  abbrev pub prepared : String → M RunTrace Bool
  prepared id t = ok (env.prepare t id) (RunCall.prepare id ∷ t)

  unfoldable pub execute_suites : Run → M RunTrace RunResult
  execute_suites run = elim (str_eq run.id "") [
    | true ↦ fail "run id is required"
    | false ↦ prepared run.id >>= λ made. elim made [
      | false ↦ fail "directory not prepared"
      | true ↦ unit_suite run (fresh_result run) >>= e2e_suite run
    ]
  ]

  unfoldable pub execute : Run → M RunTrace RunResult
  execute run =
      execute_suites run >>= λ res. return (record res { failures = collect_failures res.steps })
