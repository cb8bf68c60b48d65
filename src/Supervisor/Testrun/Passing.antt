-- ===== src/Supervisor/Testrun/Passing.antt =====
-- runner.go: what a run that passed has run.
use parallel_workspace_serve.Prelude.{
  ℕ, suc, ◌+◌, ◌==◌, String, List, [], ◌∷◌, ◌++◌, if◌then◌else◌, ◌≡◌, arith, any, not, Bool, str_eq,
  count_if, true, false, Bool-cases, inl, inr,
}
use parallel_workspace_serve.Prelude.Outcome.{Outcome, ok, err, ◌>>=◌, return}
use parallel_workspace_serve.Supervisor.Testrun.Runner.{
  Config, Failure, Step, RunResult, Run, RunCall, RunTrace, RunEnv, step, step_served, unit_suite,
  e2e_suite, execute_suites, execute, stopping, step_e2e, is_some_argv, fresh_result,
}

abbrev pub none_failed : List Step → Bool
none_failed steps = not (any (λ (s : Step). s.failed) steps)

abbrev pub has_step : String → List Step → Bool
has_step name steps = any (λ (s : Step). str_eq s.name name) steps

abbrev pub is_exec : RunCall → Bool
is_exec (RunCall.exec argv) = true
is_exec _ = false

abbrev any_step : Step → Bool
any_step s = true

abbrev failed_step : Step → Bool
failed_step s = s.failed

count-snoc :
    (p : Step → Bool) (steps : List Step) (s : Step)
    → count_if p (steps ++ s ∷ []) ≡ count_if p steps + (if p s then 1 else 0)
count-snoc p [] s = ground arith
count-snoc p (x ∷ steps) s = ground (arith, count-snoc p steps s)

module _ (env : RunEnv) (cfg : Config) (collect_failures : List Step → List Failure) where
  -- The commands of a trace whose own call was answered with a failure.
  abbrev pub failed_execs : RunTrace → ℕ
  failed_execs [] = 0
  failed_execs (RunCall.exec argv ∷ t) =
      if (env.exec t argv).1 then suc (failed_execs t) else failed_execs t
  failed_execs (_ ∷ t) = failed_execs t

  -- From `t` to `u` the result counts the commands that ran and those that failed, and passed
  -- exactly if none failed.
  abbrev pub Counts : RunTrace → RunResult → RunTrace → Type 0
  Counts t res u =
      (res.passed ≡ (failed_execs u == failed_execs t))
      × (count_if failed_step res.steps + failed_execs t ≡ failed_execs u)
      × (count_if any_step res.steps + count_if is_exec t ≡ count_if is_exec u)

  abbrev pub Truthful : RunTrace → Outcome RunTrace RunResult → Type 0
  Truthful t (ok res u) = Counts t res u
  Truthful t (err e u) = Unit

  step-Truthful :
      (dir name : String) (argv : List String) (res : RunResult) (t u : RunTrace)
      → Counts t res u
      → Truthful t (step env cfg collect_failures dir name argv res u)
  unfolding step
  step-Truthful dir name argv res t u h =
      let s : Step = record {
        name = name;
        argv = argv;
        output = (env.exec u argv).0;
        failed = (env.exec u argv).1;
      } in
      ground (arith, count-snoc failed_step res.steps s, count-snoc any_step res.steps s)

  stopping-Truthful :
      (t : RunTrace) (o : Outcome RunTrace RunResult)
      → Truthful t o
      → Truthful t (stopping env cfg collect_failures o)
  stopping-Truthful t (ok res u) h = ground arith
  stopping-Truthful t (err e u) h = tt

  step_served-Truthful :
      (dir : String) (e2e : List String) (res : RunResult) (t u : RunTrace)
      → Counts t res u
      → Truthful t (step_served env cfg collect_failures dir e2e res u)
  unfolding step_served
  step_served-Truthful dir e2e res t u h =
      let up = RunCall.serve cfg.app true ∷ u in
      let plain = step-Truthful dir step_e2e e2e res t u h in
      let served = step-Truthful dir step_e2e e2e res t up (ground arith) in
      let stopped =
        stopping-Truthful t (step env cfg collect_failures dir step_e2e e2e res up) served in
      elim (Bool-cases (is_some_argv cfg.app)) [
        | inl app ↦ elim (Bool-cases (env.serve u cfg.app)) [
          | inl started ↦ rw (app, started, Truthful) stopped
          | inr failed ↦ rw (app, failed, Truthful) tt
        ]
        | inr no_app ↦ rw (no_app, Truthful) plain
      ]

  unit_suite-Truthful :
      (run : Run) (res : RunResult) (t u : RunTrace)
      → Counts t res u
      → Truthful t (unit_suite env cfg collect_failures run res u)
  unfolding unit_suite
  unit_suite-Truthful run res t u h = grind (arith, step-Truthful)

  e2e_suite-Truthful :
      (run : Run) (res : RunResult) (t u : RunTrace)
      → Counts t res u
      → Truthful t (e2e_suite env cfg collect_failures run res u)
  unfolding e2e_suite
  e2e_suite-Truthful run res t u h = grind (arith, step_served-Truthful)

  e2e_next :
      (run : Run) (t : RunTrace) (o : Outcome RunTrace RunResult)
      → Truthful t o
      → Truthful t (◌>>=◌ (λ _. o) (e2e_suite env cfg collect_failures run) t)
  e2e_next run t (ok res u) h = e2e_suite-Truthful run res t u h
  e2e_next run t (err e u) h = tt

  fresh-Counts :
      (run : Run) (t : RunTrace)
      → Counts t (fresh_result env cfg collect_failures run) (RunCall.prepare run.id ∷ t)
  fresh-Counts run t = ground arith

  suites-Truthful :
      (run : Run) (t : RunTrace) → Truthful t (execute_suites env cfg collect_failures run t)
  unfolding execute_suites
  suites-Truthful run t =
      let begun = RunCall.prepare run.id ∷ t in
      let fresh = fresh_result env cfg collect_failures run in
      elim (Bool-cases (str_eq run.id "")) [
        | inl blank ↦ rw (blank, Truthful) tt
        | inr named ↦ elim (Bool-cases (env.prepare t run.id)) [
          | inl made ↦
              rw (named, made, Truthful)
                (e2e_next run t (unit_suite env cfg collect_failures run fresh begun)
                  (unit_suite-Truthful run fresh t begun (fresh-Counts run t)))
          | inr refused ↦ rw (named, refused, Truthful) tt
        ]
      ]

  reported :
      (t : RunTrace) (o : Outcome RunTrace RunResult)
      → Truthful t o
      → Truthful t
          (◌>>=◌ (λ _. o) (λ res. return (record res { failures = collect_failures res.steps })) t)
  reported t (ok res u) h = h
  reported t (err e u) h = tt

  -- A run that took place passed exactly if none of the commands that it ran was answered with a
  -- failure; its result has one step for each command that ran, and one failed step for each that
  -- failed.
  pub execute-Truthful :
      (run : Run) (t : RunTrace) → Truthful t (execute env cfg collect_failures run t)
  unfolding execute
  execute-Truthful run t =
      reported t (execute_suites env cfg collect_failures run t) (suites-Truthful run t)
