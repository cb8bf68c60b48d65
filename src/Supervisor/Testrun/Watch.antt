-- ===== src/Supervisor/Testrun/Watch.antt =====
-- supervisor/internal/testrun/heal.go: `Loop.Watch`, which heals after each completed turn.
-- The ticks of the poll are a list; each has what `Turn` answers before and after the healing, `none`
-- for an error, and the name of the session by the clock.
use parallel_workspace_serve.Prelude.{
  ℕ, ◌+◌, ◌*◌, ◌≤◌, String, Bool, true, false, List, [], ◌∷◌, Option, none, some, ◌||◌, str_eq,
  if◌then◌else◌, is_blank, ◌≡◌, refl, sym, subst, arith,
}
use parallel_workspace_serve.Prelude.Outcome.{Outcome, M, ok, err, final, return, ◌>>=◌}
use parallel_workspace_serve.Supervisor.Testrun.Runner.{
  Config, Failure, Step, RunResult, RunTrace, RunEnv,
}
use parallel_workspace_serve.Supervisor.Testrun.Heal.{heal}
use parallel_workspace_serve.Supervisor.Testrun.Attempts.{requests, heal-bounded}

pub record Tick : Type 0 where
  pub completed_at : Option String
  pub session_id : String
  pub after : Option String

pub record Watching : Type 0 where
  pub first : Bool
  pub seen : String

abbrev pub baseline : String → Watching
baseline at = record { first = false; seen = at }

-- The baseline after a healing.
abbrev pub rebaseline : String → Option String → Watching
rebaseline at none = baseline at
rebaseline at (some after) = baseline after

abbrev pub nothing_new : Watching → String → Bool
nothing_new w at = is_blank at || str_eq at w.seen

module _ (env : RunEnv) (cfg : Config) (collect_failures : List Step → List Failure)
    (has_publisher : Bool) (has_notify : Bool) where
  -- The error of a healing is only reported.
  abbrev pub healed : Watching → Outcome RunTrace RunResult → Outcome RunTrace Watching
  healed w (ok res t) = ok w t
  healed w (err e t) = ok w t

  abbrev pub heal_once : Watching → String → M RunTrace Watching
  heal_once w session_id t =
      healed w (heal env cfg collect_failures has_publisher has_notify session_id t)

  unfoldable pub watch_turn : Watching → String → Tick → M RunTrace Watching
  watch_turn w at tick = elim w.first [
    | true ↦ return (baseline at)
    | false ↦ elim (nothing_new w at) [
      | true ↦ return w
      | false ↦ heal_once (rebaseline at tick.after) tick.session_id
    ]
  ]

  unfoldable pub watch_tick : Watching → Tick → M RunTrace Watching
  watch_tick w tick t = elim tick.completed_at [
    | none ↦ return w t
    | some at ↦ watch_turn w at tick t
  ]

  unfoldable pub watch_loop : Watching → List Tick → M RunTrace Watching
  watch_loop w [] = return w
  watch_loop w (tick ∷ ticks) = watch_tick w tick >>= λ w'. watch_loop w' ticks

-- How many ticks see another completed turn than the last one known, which is what was seen at the
-- first tick, and after that what a healing left; `none` before the first tick.
abbrev pub known : String → Option String → String
known at none = at
known at (some after) = after

abbrev pub changes : Option String → List Tick → ℕ
changes last [] = 0
changes last (tick ∷ ticks) =
    let same = changes last ticks in
    elim tick.completed_at [
      | none ↦ same
      | some at ↦
          let started = changes (some at) ticks in
          let healed = changes (some (known at tick.after)) ticks in
          elim last [
            | none ↦ started
            | some seen ↦ if is_blank at then same else if str_eq at seen then same else 1 + healed
          ]
    ]

abbrev pub last_of : Watching → Option String
last_of w = if w.first then none else some w.seen

module _ (env : RunEnv) (cfg : Config) (collect_failures : List Step → List Failure)
    (has_publisher : Bool) (has_notify : Bool) where
  -- What the rest of the ticks may still cost stays within the bound.
  abbrev Within : ℕ → List Tick → Outcome RunTrace Watching → Type 0
  Within n ticks (ok w t) = requests t + 3 * changes (last_of w) ticks ≤ n
  Within n ticks (err e t) = requests t ≤ n

  rebaseline-known :
      (at : String) (after : Option String) → last_of (rebaseline at after) ≡ some (known at after)
  rebaseline-known at none = refl
  rebaseline-known at (some after) = refl

  healed-Within :
      (n m : ℕ) (ticks : List Tick) (w : Watching) (o : Outcome RunTrace RunResult)
      → requests (final o) ≤ m
      → m + 3 * changes (last_of w) ticks ≤ n
      → Within n ticks (healed env cfg collect_failures has_publisher has_notify w o)
  healed-Within n m ticks w (ok res t) h k = omega (arith, h, k)
  healed-Within n m ticks w (err e t) h k = omega (arith, h, k)

  turn-Within :
      (w : Watching) (at : String) (tick : Tick) (ticks : List Tick) (t : RunTrace)
      → tick.completed_at ≡ some at
      → Within
          (requests t + 3 * changes (last_of w) (tick ∷ ticks))
          ticks
          (watch_turn env cfg collect_failures has_publisher has_notify w at tick t)
  unfolding watch_turn
  turn-Within w at tick ticks t e =
      let o = heal env cfg collect_failures has_publisher has_notify tick.session_id t in
      let cost =
        healed-Within (requests t + 3 + 3 * changes (last_of (rebaseline at tick.after)) ticks)
          (requests t + 3) ticks (rebaseline at tick.after) o
          (heal-bounded env cfg collect_failures has_publisher has_notify tick.session_id t).1
          (omega arith) in
      ground (arith, e, cost, rebaseline-known at tick.after)

  tick-Within :
      (w : Watching) (c : Option String) (tick : Tick) (ticks : List Tick) (t : RunTrace)
      → tick.completed_at ≡ c
      → Within
          (requests t + 3 * changes (last_of w) (tick ∷ ticks))
          ticks
          (watch_tick env cfg collect_failures has_publisher has_notify w tick t)
  unfolding watch_tick
  tick-Within w none tick ticks t e = rw e (omega arith)
  tick-Within w (some at) tick ticks t e =
      subst
        (λ (c : Option String).
          Within (requests t + 3 * changes (last_of w) (tick ∷ ticks)) ticks (elim c [
            | none ↦ return w t
            | some x ↦ watch_turn env cfg collect_failures has_publisher has_notify w x tick t
          ]))
        (sym e) (turn-Within w at tick ticks t e)

  loop-Within :
      (n : ℕ) (ticks : List Tick) (t : RunTrace) (o : Outcome RunTrace Watching)
      → Within n ticks o
      → ((w : Watching) (u : RunTrace)
          → requests
              (final (watch_loop env cfg collect_failures has_publisher has_notify w ticks u))
            ≤ requests u + 3 * changes (last_of w) ticks)
      → requests (
          final (
            ◌>>=◌
              (λ _. o)
              (λ w. watch_loop env cfg collect_failures has_publisher has_notify w ticks)
              t))
        ≤ n
  loop-Within n ticks t (ok w u) h ih = omega (arith, ih w u, h)
  loop-Within n ticks t (err e u) h ih = h

  -- The loop makes at most three fix requests for each completed turn that is not its own: a turn
  -- that was there at the first tick, or that a healing left, is no such turn.
  pub watch_loop-bounded :
      (w : Watching) (ticks : List Tick) (t : RunTrace)
      → requests (final (watch_loop env cfg collect_failures has_publisher has_notify w ticks t))
        ≤ requests t + 3 * changes (last_of w) ticks
  unfolding watch_loop
  watch_loop-bounded w [] t = omega arith
  watch_loop-bounded w (tick ∷ ticks) t =
      loop-Within (requests t + 3 * changes (last_of w) (tick ∷ ticks)) ticks t
        (watch_tick env cfg collect_failures has_publisher has_notify w tick t)
        (tick-Within w tick.completed_at tick ticks t refl) (λ w' u. watch_loop-bounded w' ticks u)
