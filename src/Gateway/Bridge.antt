-- ===== src/Gateway/Bridge.antt =====
-- gateway/internal/gateway/handler.go: `bridge` with `readOutput` and `sendInput`, which couples a
-- browser's socket to the session. The JSON of a chunk's text is a function of its bytes.

pub mod Delivery
pub mod Complete
mod Examples
use parallel_workspace_serve.Prelude.{
  ◌++◌, ℕ, String, Bool, true, false, List, [], ◌∷◌, Option, none, some, ◌&&◌, ◌||◌, not, ◌==◌,
  if◌then◌else◌, is_blank, map,
}
use parallel_workspace_serve.Gateway.BrowserSessions.{Sessions, writable}
use parallel_workspace_serve.Supervisor.Evacuation.DirtyPaths.{Bytes}
use parallel_workspace_serve.Supervisor.Session.Terminal.{OutputChunk, LogFile, serve_output}

-- The exchange of `readOutput`, the texts as they are before their JSON: no answer, or a status and a body, which may not decode.
unfoldable pub read_output : Option (ℕ × Option (List OutputChunk)) → Option (List OutputChunk)
read_output none = none
read_output (some (status, none)) = none
read_output (some (status, some chunks)) = if status == 200 then some chunks else none

-- One round of the loop: whether the request is answered, the log then, whether the writes to the
-- socket succeed, and whether the connection has ended in the pause after it.
pub record Poll : Type 0 where
  pub answered : Bool
  pub file : LogFile
  pub writes : Bool
  pub ended : Bool

-- The raw text of what is written to the socket, the offset, and whether the loop goes on.
pub record Sent : Type 0 where
  pub pieces : List Bytes
  pub since : ℕ
  pub goes_on : Bool

-- What goes down the socket. `through_json` is what the JSON of the supervisor's answer, which
-- `readOutput` decodes, makes of a text.
abbrev pub frames : (Bytes → Bytes) → Sent → List Bytes
frames through_json sent = map through_json sent.pieces

abbrev pub prepend : Bytes → Sent → Sent
prepend piece sent = record sent { pieces = piece ∷ sent.pieces }

unfoldable pub write_chunks : Bool → ℕ → List OutputChunk → Sent
write_chunks writes since [] = record { pieces = []; since = since; goes_on = true }
write_chunks false since (c ∷ chunks) = record { pieces = []; since = since; goes_on = false }
write_chunks true since (c ∷ chunks) = prepend c.text (write_chunks true c.seq chunks)

abbrev pub exchange : Poll → ℕ → Option (ℕ × Option (List OutputChunk))
exchange p since = if p.answered then some (serve_output p.file since) else none

unfoldable pub write_round : Bool → ℕ → Option (List OutputChunk) → Sent
unfolding write_chunks
write_round writes since none = record { pieces = []; since = since; goes_on = false }
write_round writes since (some chunks) = write_chunks writes since chunks

-- One round, up to the pause.
unfoldable pub round : Poll → ℕ → Sent
unfolding read_output write_round
round p since = write_round p.writes since (read_output (exchange p since))

abbrev pub append_sent : Sent → Sent → Sent
append_sent a b = record { pieces = a.pieces ++ b.pieces; since = b.since; goes_on = b.goes_on }

unfoldable pub bridge_output : ℕ → List Poll → Sent
unfolding round
bridge_output since [] = record { pieces = []; since = since; goes_on = true }
bridge_output since (p ∷ polls) =
    let sent = round p since in
    let rest = bridge_output (round p since).since polls in
    if sent.goes_on && not p.ended then append_sent sent rest else sent

abbrev pub is_empty : Bytes → Bool
is_empty [] = true
is_empty (c ∷ text) = false

-- What is typed, with the sessions as they are then and whether POST /input is answered; of an
-- answer the status is not read.
pub record Typed : Type 0 where
  pub text : Bytes
  pub sessions : Sessions
  pub answered : Bool

-- The texts that are posted.
unfoldable pub bridge_input : String → String → List Typed → List Bytes
bridge_input workspace session_id [] = []
bridge_input workspace session_id (t ∷ typed) =
    let rest = bridge_input workspace session_id typed in
    let posted = t.text ∷ (if t.answered then rest else []) in
    if is_empty t.text || not (writable workspace session_id t.sessions) then rest else posted
