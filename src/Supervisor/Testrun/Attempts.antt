-- ===== src/Supervisor/Testrun/Attempts.antt =====
-- heal.go: how many runs and fix requests a healing session makes, and what it reports.
use mathlib.Core.List.{head?}
use parallel_workspace_serve.Prelude.{
  ℕ, zero, suc, ◌+◌, ◌≤◌, String, Bool, true, false, List, [], ◌∷◌, some, ◌≡◌, ◌⊎◌, count_if, arith,
  refl, subst, if◌then◌else◌,
}
use parallel_workspace_serve.Prelude.Outcome.{Outcome, M, ok, err, final, ◌>>=◌}
use parallel_workspace_serve.Supervisor.Testrun.Runner.{
  Config, Failure, Step, RunResult, Run, RunCall, RunTrace, RunEnv, step, step_served, unit_suite,
  e2e_suite, execute_suites, execute, fresh_result,
}
use parallel_workspace_serve.Supervisor.Testrun.Heal.{
  max_healing_attempts, event_tests_verified, event_self_healing_exhausted, publish, run, run_id,
  report, heal_from, heal, next_only,
}

abbrev pub is_run : RunCall → Bool
is_run (RunCall.prepare id) = true
is_run _ = false

abbrev pub is_request : RunCall → Bool
is_request (RunCall.request id) = true
is_request _ = false

-- The runs begun and the fix requests made so far.
abbrev pub runs : RunTrace → ℕ
runs t = count_if is_run t

abbrev pub requests : RunTrace → ℕ
requests t = count_if is_request t

-- The calls that neither begin a run nor make a request.
abbrev is_quiet : RunCall → Bool
is_quiet (RunCall.prepare id) = false
is_quiet (RunCall.request id) = false
is_quiet _ = true

module _ (env : RunEnv) (cfg : Config) (collect_failures : List Step → List Failure)
    (P : RunTrace → Type 0)
    (keep : (c : RunCall) (t : RunTrace) → P t → is_quiet c ≡ true → P (c ∷ t)) where
  step-keeps :
      (dir name : String) (argv : List String) (res : RunResult) (t : RunTrace)
      → P t
      → P (final (step env cfg collect_failures dir name argv res t))
  unfolding step
  step-keeps dir name argv res t p = grind (arith, keep)

  step_served-keeps :
      (dir : String) (e2e : List String) (res : RunResult) (t : RunTrace)
      → P t
      → P (final (step_served env cfg collect_failures dir e2e res t))
  unfolding step_served step
  step_served-keeps dir e2e res t p = grind (arith, keep)

  unit_suite-keeps :
      (r : Run) (res : RunResult) (t : RunTrace)
      → P t
      → P (final (unit_suite env cfg collect_failures r res t))
  unfolding unit_suite
  unit_suite-keeps r res t p = grind (arith, step-keeps)

  e2e_suite-keeps :
      (r : Run) (res : RunResult) (t : RunTrace)
      → P t
      → P (final (e2e_suite env cfg collect_failures r res t))
  unfolding e2e_suite
  e2e_suite-keeps r res t p = grind (arith, step_served-keeps)

  suites-keeps :
      (r : Run) (res : RunResult) (t : RunTrace)
      → P t
      → P (
          final (
            ◌>>=◌
              (unit_suite env cfg collect_failures r res)
              (e2e_suite env cfg collect_failures r)
              t))
  suites-keeps r res t p = grind (arith, unit_suite-keeps, e2e_suite-keeps)

-- So many runs and requests.
abbrev Counts : ℕ → ℕ → RunTrace → Type 0
Counts n k t = (runs t ≡ n) × (requests t ≡ k)

keep_Counts :
    (n k : ℕ) (c : RunCall) (t : RunTrace) → Counts n k t → is_quiet c ≡ true → Counts n k (c ∷ t)
keep_Counts n k c t e h = ground arith

-- At most one run was added, and no request.
abbrev OneRun : RunTrace → RunTrace → Type 0
OneRun t u = (runs u ≤ runs t + 1) × (requests u ≡ requests t)

module _ (env : RunEnv) (cfg : Config) (collect_failures : List Step → List Failure) where
  execute-OneRun :
      (r : Run) (t : RunTrace) → OneRun t (final (execute env cfg collect_failures r t))
  unfolding execute execute_suites
  execute-OneRun r t =
      let begun = RunCall.prepare r.id ∷ t in
      ground (
        arith,
        suites-keeps env cfg collect_failures (Counts (runs begun) (requests begun))
            (keep_Counts (runs begun) (requests begun)) r (fresh_result env cfg collect_failures r)
            begun (refl, refl),
      )

module _ (env : RunEnv) (cfg : Config) (collect_failures : List Step → List Failure)
    (has_publisher : Bool) (has_notify : Bool) where
  run-OneRun :
      (session_id : String) (n : ℕ) (only : List String) (t : RunTrace)
      → OneRun t (final (run env cfg collect_failures has_publisher has_notify session_id n only t))
  unfolding run publish
  run-OneRun session_id n only t = ground (
    arith,
    execute-OneRun env cfg collect_failures
        (record { id = run_id session_id n; attempt = n; only_tests = only }) t,
  )

  -- A last run that failed, only after `k` requests.
  abbrev pub Verdict : ℕ → Outcome RunTrace RunResult → Type 0
  Verdict k (ok res u) = (res.passed ≡ true) ⊎ (requests u ≡ k)
  Verdict k (err e u) = Unit

  -- With `left` requests to go: so many more runs and requests at most, and a failed last run only
  -- when all the requests were made.
  abbrev Healed : ℕ → RunTrace → Outcome RunTrace RunResult → Type 0
  Healed left t o =
      (runs (final o) ≤ runs t + left)
      × (requests (final o) ≤ requests t + left)
      × Verdict (requests t + left) o

  again-Healed :
      (loop : RunResult → M RunTrace RunResult) (left : ℕ) (t : RunTrace)
      (o : Outcome RunTrace RunResult)
      → ((res : RunResult) (u : RunTrace) → Healed left u (loop res u))
      → runs (final o) ≤ runs t + 1
      → requests (final o) ≡ requests t + 1
      → Healed (suc left) t (◌>>=◌ (λ _. o) loop t)
  again-Healed loop left t (ok res u) ih h k =
      let (a, b, v) = ih res u in
      let same : requests u + left ≡ requests t + suc left = omega arith in
      (omega arith, omega arith, subst (λ m. Verdict m (loop res u)) same v)
  again-Healed loop left t (err e u) ih h k = (omega arith, omega arith, tt)

  heal_from-Healed :
      (session_id : String) (left n : ℕ) (res : RunResult) (t : RunTrace)
      → Healed left t
          (heal_from env cfg collect_failures has_publisher has_notify session_id left n res t)
  unfolding heal_from
  heal_from-Healed session_id zero n res t = ground arith
  heal_from-Healed session_id (suc left) n res t =
      let asked = RunCall.request (run_id session_id n) ∷ t in
      let one = run-OneRun session_id (n + 1) (next_only res) asked in
      let again =
        again-Healed
          (heal_from env cfg collect_failures has_publisher has_notify session_id left (n + 1)) left
          t
          (run env cfg collect_failures has_publisher has_notify session_id (n + 1) (next_only res)
            asked)
          (heal_from-Healed session_id left (n + 1)) (omega arith) (omega arith) in
      ground arith

  report-keeps :
      (k : ℕ) (t : RunTrace) (o : Outcome RunTrace RunResult)
      → Verdict k o
      → let told = ◌>>=◌ (λ _. o) (report env cfg collect_failures has_publisher has_notify) t in
        (runs (final told) ≡ runs (final o))
        × (requests (final told) ≡ requests (final o))
        × Verdict k told
  unfolding report
  report-keeps k t (ok res u) v = ground arith
  report-keeps k t (err e u) v = (refl, refl, tt)

  -- Where notification is configured, the last call tells the verdict of the run that is returned.
  abbrev pub Reported : Outcome RunTrace RunResult → Type 0
  Reported (ok res u) =
      has_notify ≡ true
      → head? u
        ≡ some (
            RunCall.notify
              (if res.passed then event_tests_verified else event_self_healing_exhausted) res)
  Reported (err e u) = Unit

  report-Reported :
      (t : RunTrace) (o : Outcome RunTrace RunResult)
      → Reported (◌>>=◌ (λ _. o) (report env cfg collect_failures has_publisher has_notify) t)
  unfolding report
  report-Reported t (ok res u) = ground arith
  report-Reported t (err e u) = tt

  first-Healed :
      (loop : RunResult → M RunTrace RunResult) (left : ℕ) (t : RunTrace)
      (o : Outcome RunTrace RunResult)
      → ((res : RunResult) (u : RunTrace) → Healed left u (loop res u))
      → OneRun t (final o)
      → let healed = ◌>>=◌ (λ _. o) loop t in
        (runs (final healed) ≤ runs t + suc left)
        × (requests (final healed) ≤ requests t + left)
        × Verdict (requests t + left) healed
  first-Healed loop left t (ok res u) ih h =
      let (a, b, v) = ih res u in
      let same : requests u + left ≡ requests t + left = omega arith in
      (omega arith, omega arith, subst (λ m. Verdict m (loop res u)) same v)
  first-Healed loop left t (err e u) ih h = (omega arith, omega arith, tt)

  -- A healing session makes at most four runs and at most three fix requests. If it ends without an
  -- error, its last run passed or all three requests were made; and where notification is
  -- configured its last call reports that run, as verified exactly if it passed.
  pub heal-bounded :
      (session_id : String) (t : RunTrace)
      → let o = heal env cfg collect_failures has_publisher has_notify session_id t in
        (runs (final o) ≤ runs t + 4)
        × (requests (final o) ≤ requests t + 3)
        × Verdict (requests t + 3) o
        × Reported o
  unfolding heal
  heal-bounded session_id t =
      let first = run env cfg collect_failures has_publisher has_notify session_id 1 [] t in
      let loop =
        heal_from env cfg collect_failures has_publisher has_notify session_id max_healing_attempts
          1 in
      let healed = ◌>>=◌ (λ (_ : RunTrace). first) loop t in
      let (a, b, v) =
        first-Healed loop 3 t first (heal_from-Healed session_id 3 1)
          (run-OneRun session_id 1 [] t) in
      let (c, d, w) = report-keeps (requests t + 3) t healed v in
      (omega arith, omega arith, w, report-Reported t healed)
