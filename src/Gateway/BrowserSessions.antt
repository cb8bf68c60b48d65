-- ===== src/Gateway/BrowserSessions.antt =====
-- gateway/internal/gateway/handover.go: `browserSessions`, the browser connections per workspace
-- and which of them may write. Each method holds the mutex, so it is one step.
pub mod Writers
pub mod SingleWriter
use parallel_workspace_serve.Prelude.{
  ℕ, String, Bool, true, false, List, [], ◌∷◌, Option, none, some, ◌&&◌, not, ◌==◌, str_eq,
  if◌then◌else◌, Dict, lookup, insert, delete, any, length,
}

-- Workspace name, then session id, then whether the session may write.
abbrev pub Sessions : Type 0
Sessions = Dict (Dict Bool)

-- A missing key reads as the nil map, and as false.
abbrev pub or_nil : Option (Dict Bool) → Dict Bool
or_nil none = []
or_nil (some m) = m

abbrev pub or_false : Option Bool → Bool
or_false none = false
or_false (some b) = b

abbrev pub of_workspace : String → Sessions → Dict Bool
of_workspace workspace b = or_nil (lookup workspace b)

unfoldable pub attach : String → String → Sessions → Sessions × ℕ
attach workspace id b =
    let sessions = insert id false (of_workspace workspace b) in
    (insert workspace sessions b, length sessions)

unfoldable pub detach : String → String → Sessions → Sessions × ℕ
detach workspace id b =
    let sessions = delete id (of_workspace workspace b) in
    (
      if length sessions == 0 then delete workspace b else insert workspace sessions b,
      length sessions,
    )

-- Whether a session other than `id` may write.
abbrev pub held_by_other : String → Dict Bool → Bool
held_by_other id sessions = any (λ e. e.1 && not (str_eq e.0 id)) sessions

-- The new state, `ok` and `known`.
unfoldable pub promote : String → String → Sessions → Sessions × Bool × Bool
promote workspace id b =
    let sessions = of_workspace workspace b in
    elim (lookup id sessions) [
      | none ↦ (b, false, false)
      | some writable ↦
          if held_by_other id sessions
          then (b, false, true)
          else (insert workspace (insert id true sessions) b, true, true)
    ]

unfoldable pub release : String → String → Sessions → Sessions
release workspace id b =
    let sessions = of_workspace workspace b in
    elim (lookup id sessions) [
      | none ↦ b
      | some writable ↦ insert workspace (insert id false sessions) b
    ]

unfoldable pub writable : String → String → Sessions → Bool
writable workspace id b = or_false (lookup id (of_workspace workspace b))
