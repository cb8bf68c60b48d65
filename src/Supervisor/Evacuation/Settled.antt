-- ===== src/Supervisor/Evacuation/Settled.antt =====
-- trigger.go: `EvacuateWhenSettled` captures a settled tree or nothing, and ends.
use parallel_workspace_serve.Prelude.{ℕ, zero, suc, ◌+◌, ◌≤◌, ◌<◌, Bool, true, false, ◌≡◌, arith}
use native.Mathlib.Decide.{ℕ_discrete}
use parallel_workspace_serve.Supervisor.Evacuation.Trigger.{
  Turn, turn, turn_error, Polls, Settling, evacuate_at, turn_failed, refused_at, cancelled_at,
  still_polling, settle, evacuate_when_settled,
}

abbrev pub is_busy : Turn → Bool
is_busy (turn busy completed_at) = busy
is_busy turn_error = false

abbrev pub is_idle : Turn → Bool
is_idle (turn true completed_at) = false
is_idle (turn false completed_at) = true
is_idle turn_error = false

-- A poll that goes on: a turn executing, the deadline ahead, the context alive.
abbrev pub Waited : Polls → ℕ → ℕ → Type 0
Waited p deadline i =
    (is_busy (p.reading i) ≡ true) × (p.time i < deadline) × (p.cancelled i ≡ false)

-- What each end says of the poll at which it comes.
abbrev pub EndsBy : Polls → ℕ → Settling → Type 0
EndsBy p deadline (evacuate_at k) = is_idle (p.reading k) ≡ true
EndsBy p deadline (turn_failed k) = p.reading k ≡ turn_error
EndsBy p deadline (refused_at k) = (is_busy (p.reading k) ≡ true) × (deadline ≤ p.time k)
EndsBy p deadline (cancelled_at k) = (is_busy (p.reading k) ≡ true) × (p.cancelled k ≡ true)
EndsBy p deadline still_polling = ⊥

settle-EndsBy :
    (p : Polls) (deadline fuel n late : ℕ)
    → late < n + fuel
    → n ≤ late
    → deadline ≤ p.time late
    → EndsBy p deadline (settle p deadline fuel n)
unfolding settle
settle-EndsBy p deadline zero n late h l d = absurd (omega arith)
settle-EndsBy p deadline (suc fuel) n late h l d = elim (ℕ_discrete n late) [
  | yes now ↦ let reached : deadline ≤ p.time n = rw now d in ground arith
  | no later ↦
      ground (arith, settle-EndsBy p deadline fuel (n + 1) late (omega arith) (omega arith) d)
]

-- Once the clock has passed the deadline at some poll within the fuel, the loop has ended: it
-- evacuates only at a poll that found no turn executing, it refuses only at or after the deadline
-- with a turn still executing, and else it stopped at an error of the reading or a cancellation.
pub evacuate_when_settled-EndsBy :
    (p : Polls) (started wait fuel late : ℕ)
    → late < fuel
    → started + wait ≤ p.time late
    → EndsBy p (started + wait) (evacuate_when_settled p started wait fuel)
unfolding evacuate_when_settled
evacuate_when_settled-EndsBy p started wait fuel late h d =
    settle-EndsBy p (started + wait) fuel 0 late (omega arith) (omega arith) d
