-- ===== src/Supervisor/Testrun/Heal.antt =====
-- supervisor/internal/testrun/heal.go: `Loop.Heal`, `run`, `report`, `nextOnly` and `failedTests`.
-- Writing the JSON records is best-effort, and no other code reads them: it is not part of the model.
use Prim.Native.String
use parallel_workspace_serve.Prelude.{
  ℕ, zero, suc, ◌+◌, ◌/◌, ◌%◌, String, Bool, true, false, List, [], ◌∷◌, none, some, ◌&&◌, ◌||◌,
  str_eq, any, if◌then◌else◌, ltb,
}
use parallel_workspace_serve.Prelude.Outcome.{M, ok, return, fail, ◌>>=◌}
use parallel_workspace_serve.Supervisor.Testrun.Runner.{
  Config, Failure, Step, RunResult, RunCall, RunTrace, RunEnv, step_unit, execute,
}

abbrev pub max_healing_attempts : ℕ
max_healing_attempts = 3

abbrev pub event_tests_verified : String
event_tests_verified = "TestsVerified"

abbrev pub event_self_healing_exhausted : String
event_self_healing_exhausted = "SelfHealingExhausted"

-- `seen` are the names met so far.
unfoldable pub failed_tests_from : List String → List Failure → List String
failed_tests_from seen [] = []
failed_tests_from seen (f ∷ failures) =
    let skip = failed_tests_from seen failures in
    let take = failed_tests_from (f.test_name ∷ seen) failures in
    if str_eq f.test_name "" || any (λ name. str_eq name f.test_name) seen
    then skip
    else f.test_name ∷ take

unfoldable pub failed_tests : List Failure → List String
failed_tests failures = failed_tests_from [] failures

unfoldable pub next_only : RunResult → List String
next_only res =
    if any (λ (s : Step). str_eq s.name step_unit && s.failed) res.steps
    then []
    else failed_tests res.failures

abbrev pub digit : ℕ → String
digit zero = "0"
digit (suc zero) = "1"
digit (suc (suc zero)) = "2"
digit (suc (suc (suc zero))) = "3"
digit (suc (suc (suc (suc zero)))) = "4"
digit (suc (suc (suc (suc (suc zero))))) = "5"
digit (suc (suc (suc (suc (suc (suc zero)))))) = "6"
digit (suc (suc (suc (suc (suc (suc (suc zero))))))) = "7"
digit (suc (suc (suc (suc (suc (suc (suc (suc zero)))))))) = "8"
digit (suc (suc (suc (suc (suc (suc (suc (suc (suc n))))))))) = "9"

-- `%d`, with as many rounds as the number is great, which is at least as many as it has digits.
unfoldable pub decimal_from : ℕ → ℕ → String
decimal_from zero n = digit n
decimal_from (suc fuel) n =
    let high = decimal_from fuel (n / 10) in
    if ltb n 10 then digit n else String.◌++◌ high (digit (n % 10))

abbrev pub decimal : ℕ → String
decimal n = decimal_from n n

unfoldable pub run_id : String → ℕ → String
run_id session_id attempt = String.◌++◌ session_id (String.◌++◌ "-" (decimal attempt))

-- How `Heal` ends: a last run, or an error; the source returns the last run with an error of a
-- request, which the callers ignore.
module _ (env : RunEnv) (cfg : Config) (collect_failures : List Step → List Failure)
    (has_publisher : Bool) (has_notify : Bool) where
  unfoldable pub publish : String → M RunTrace String
  publish id t = elim has_publisher [
    | false ↦ ok "" t
    | true ↦ elim (env.publish t id) [
      | none ↦ ok "" (RunCall.publish id ∷ t)
      | some url ↦ ok url (RunCall.publish id ∷ t)
    ]
  ]

  unfoldable pub run : String → ℕ → List String → M RunTrace RunResult
  run session_id attempt only =
      execute env cfg collect_failures
        (record { id = run_id session_id attempt; attempt = attempt; only_tests = only })
      >>= λ res.
          publish (run_id session_id attempt) >>= λ url. return (record res { report_url = url })

  unfoldable pub report : RunResult → M RunTrace RunResult
  report res t = elim has_notify [
    | false ↦ ok res t
    | true ↦ ok res (
        RunCall.notify (if res.passed then event_tests_verified else event_self_healing_exhausted)
          res
        ∷ t)
  ]

  abbrev pub requested : String → M RunTrace Bool
  requested id t = ok (env.request t id) (RunCall.request id ∷ t)

  -- The loop from attempt `n`, with `left` requests to go.
  unfoldable pub heal_from : String → ℕ → ℕ → RunResult → M RunTrace RunResult
  heal_from session_id zero n res = return res
  heal_from session_id (suc left) n res = elim res.passed [
    | true ↦ return res
    | false ↦ requested (run_id session_id n) >>= λ answered. elim answered [
      | false ↦ fail "request failed"
      | true ↦ run session_id (n + 1) (next_only res) >>= heal_from session_id left (n + 1)
    ]
  ]

  unfoldable pub heal : String → M RunTrace RunResult
  heal session_id = run session_id 1 [] >>= heal_from session_id max_healing_attempts 1 >>= report
