-- ===== src/Supervisor/Testrun/Serving.antt =====
-- runner.go: the application under test is stopped whenever it was started.
use parallel_workspace_serve.Prelude.{◌+◌, String, Bool, true, false, List, ◌≡◌, count_if, arith}
use parallel_workspace_serve.Prelude.Outcome.{final}
use parallel_workspace_serve.Supervisor.Testrun.Runner.{
  Config, Failure, Step, RunResult, Run, RunCall, RunTrace, RunEnv, step, step_served, unit_suite,
  e2e_suite, execute_suites, execute,
}

abbrev pub is_start : RunCall → Bool
is_start (RunCall.serve argv started) = started
is_start _ = false

abbrev pub is_stop : RunCall → Bool
is_stop RunCall.stop = true
is_stop _ = false

-- Applications running: started and not stopped.
abbrev pub Balanced : RunTrace → RunTrace → Type 0
Balanced t u = count_if is_start u + count_if is_stop t ≡ count_if is_start t + count_if is_stop u

module _ (env : RunEnv) (cfg : Config) (collect_failures : List Step → List Failure) where
  step-Balanced :
      (dir name : String) (argv : List String) (res : RunResult) (t : RunTrace)
      → Balanced t (final (step env cfg collect_failures dir name argv res t))
  unfolding step
  step-Balanced dir name argv res t = ground arith

  step_served-Balanced :
      (dir : String) (e2e : List String) (res : RunResult) (t : RunTrace)
      → Balanced t (final (step_served env cfg collect_failures dir e2e res t))
  unfolding step_served step
  step_served-Balanced dir e2e res t = ground arith

  unit_suite-Balanced :
      (run : Run) (res : RunResult) (t : RunTrace)
      → Balanced t (final (unit_suite env cfg collect_failures run res t))
  unfolding unit_suite
  unit_suite-Balanced run res t = grind (arith, step-Balanced)

  e2e_suite-Balanced :
      (run : Run) (res : RunResult) (t : RunTrace)
      → Balanced t (final (e2e_suite env cfg collect_failures run res t))
  unfolding e2e_suite
  e2e_suite-Balanced run res t = grind (arith, step_served-Balanced)

  -- However a run ends, it has stopped the application as often as it started it.
  pub execute-Balanced :
      (run : Run) (t : RunTrace) → Balanced t (final (execute env cfg collect_failures run t))
  unfolding execute execute_suites
  execute-Balanced run t = grind (arith, unit_suite-Balanced, e2e_suite-Balanced)
