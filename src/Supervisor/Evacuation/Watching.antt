-- ===== src/Supervisor/Evacuation/Watching.antt =====
-- trigger.go: `WatchTurns` evacuates once for each completed turn.
use parallel_workspace_serve.Prelude.{
  ℕ, ◌+◌, String, Bool, false, List, [], ◌∷◌, str_eq, eq_iff, not, keep_if, if◌then◌else◌, ◌≡◌,
  arith, refl,
}
use parallel_workspace_serve.Supervisor.Evacuation.Trigger.{
  Turn, turn, turn_error, start_watching, watch_tick, watch_turns,
}

-- The marks that were read, errors left out.
abbrev pub marks : List Turn → List String
marks [] = []
marks (turn busy completed_at ∷ ts) = completed_at ∷ marks ts
marks (turn_error ∷ ts) = marks ts

abbrev pub is_mark : String → Bool
is_mark m = not (str_eq m "")

-- How often a list of marks changes from one to the next.
abbrev pub changes : List String → ℕ
changes [] = 0
changes (a ∷ []) = 0
changes (a ∷ b ∷ ms) = (if str_eq b a then 0 else 1) + changes (b ∷ ms)

-- The first mark is the baseline, also if it is empty; of the others only real marks count.
abbrev pub completions : List String → ℕ
completions [] = 0
completions (baseline ∷ ms) = changes (baseline ∷ keep_if is_mark ms)

watching-changes :
    (seen : String) (ts : List Turn)
    → watch_turns (record { first = false; seen = seen }) ts
      ≡ changes (seen ∷ keep_if is_mark (marks ts))
unfolding watch_turns watch_tick
watching-changes seen [] = refl
watching-changes seen (turn_error ∷ ts) = omega (arith, watching-changes seen ts)
watching-changes seen (turn busy m ∷ ts) =
    ground (arith, eq_iff m seen, watching-changes seen ts, watching-changes m ts)

-- Over any readings, errors among them, the number of evacuations is that of the changes from one
-- completed turn's mark to the next, counted from the first reading that succeeds: that reading
-- itself evacuates nothing, and neither does a mark that is read again or an empty one.
pub watch_turns-completions :
    (ts : List Turn) → watch_turns start_watching ts ≡ completions (marks ts)
unfolding watch_turns watch_tick
watch_turns-completions [] = refl
watch_turns-completions (turn_error ∷ ts) = omega (arith, watch_turns-completions ts)
watch_turns-completions (turn busy m ∷ ts) = omega (arith, watching-changes m ts)
