-- ===== src/Supervisor/Evacuation/Trigger.antt =====
-- supervisor/internal/evacuation/trigger.go: the two occasions of an evacuation.
use parallel_workspace_serve.Prelude.{
  ℕ, zero, suc, ◌+◌, String, Bool, true, false, List, [], ◌∷◌, ltb, ◌||◌, str_eq, if◌then◌else◌,
}

-- What `Turn` reports: an error, or whether a turn is executing and the mark of the last one that
-- completed ("" where there is none).
pub data Turn : Type 0 where
  turn : Bool → String → Turn
  turn_error : Turn

-- The variables of the loop of `WatchTurns`.
pub record Watch : Type 0 where
  pub first : Bool
  pub seen : String

abbrev pub start_watching : Watch
start_watching = record { first = true; seen = "" }

-- One tick: the variables after it, and whether it evacuates.
unfoldable pub watch_tick : Watch → Turn → Watch × Bool
watch_tick w turn_error = (w, false)
watch_tick w (turn busy completed_at) =
    if w.first
    then (record { first = false; seen = completed_at }, false)
    else (if str_eq completed_at "" || str_eq completed_at w.seen
        then (w, false)
        else (record w { seen = completed_at }, true))

-- The number of evacuations over the ticks.
unfoldable pub watch_turns : Watch → List Turn → ℕ
watch_turns w [] = 0
watch_turns w (t ∷ ts) =
    let (w', evacuates) = watch_tick w t in (if evacuates then 1 else 0) + watch_turns w' ts

-- How `EvacuateWhenSettled` ends; `still_polling` is what it is before its end.
pub data Settling : Type 0 where
  -- The evacuation is run after so many polls.
  evacuate_at : ℕ → Settling
  turn_failed : ℕ → Settling
  -- The deadline passed with the turn still running.
  refused_at : ℕ → Settling
  cancelled_at : ℕ → Settling
  still_polling : Settling

-- The surroundings of the loop: what `Turn` reports at poll n, the time then, and whether the
-- context ends in the pause after it.
pub record Polls : Type 0 where
  pub reading : ℕ → Turn
  pub time : ℕ → ℕ
  pub cancelled : ℕ → Bool

unfoldable pub settle : Polls → ℕ → ℕ → ℕ → Settling
settle p deadline zero n = still_polling
settle p deadline (suc fuel) n = elim (p.reading n) [
  | turn_error ↦ turn_failed n
  | turn busy completed_at ↦ elim busy [
    | false ↦ evacuate_at n
    | true ↦ elim (ltb (p.time n) deadline) [
      | false ↦ refused_at n
      | true ↦ elim (p.cancelled n) [
        | true ↦ cancelled_at n
        | false ↦ settle p deadline fuel (n + 1)
      ]
    ]
  ]
]

-- `started` is the time of the call and `wait` the time that it allows.
unfoldable pub evacuate_when_settled : Polls → ℕ → ℕ → ℕ → Settling
evacuate_when_settled p started wait fuel = settle p (started + wait) fuel 0
