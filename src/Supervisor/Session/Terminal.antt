-- ===== src/Supervisor/Session/Terminal.antt =====
-- supervisor/internal/session/session.go, with `firstWritableOther` of tmux.go and the handlers of
-- http.go for output and input. tmux and the files are arguments.
use parallel_workspace_serve.Prelude.{
  ℕ, ◌+◌, String, Bool, true, false, List, [], ◌∷◌, ◌++◌, Option, none, some, ◌&&◌, not, str_eq,
  if◌then◌else◌, length, drop, Dict, insert, delete,
}
use parallel_workspace_serve.Supervisor.Evacuation.DirtyPaths.{Bytes}

pub record SessionClient : Type 0 where
  pub id : String
  pub writable : Bool

-- `seq` is the offset behind the chunk.
pub record OutputChunk : Type 0 where
  pub seq : ℕ
  pub text : Bytes

-- The output log as a read of it finds it.
pub data LogFile : Type 0 where
  missing unreadable : LogFile
  log : Bytes → LogFile

abbrev pub chunk_of : ℕ → Bytes → List OutputChunk
chunk_of since [] = []
chunk_of since (c ∷ read) = record { seq = since + length (c ∷ read); text = c ∷ read } ∷ []

-- `none` is an error.
unfoldable pub read_output : LogFile → ℕ → Option (List OutputChunk)
read_output missing since = some []
read_output unreadable since = none
read_output (log written) since = some (chunk_of since (drop since written))

-- GET /output: the status, and the chunks of a success.
unfoldable pub serve_output : LogFile → ℕ → ℕ × Option (List OutputChunk)
unfolding read_output
serve_output file since = elim (read_output file since) [
  | none ↦ (500, none)
  | some chunks ↦ (200, some chunks)
]

-- The clients that hold the session, with the time since when.
abbrev pub Held : Type 0
Held = Dict ℕ

unfoldable pub hold_writable : ℕ → String → Held → Held
hold_writable now client held = insert client now held

unfoldable pub release_writable : String → Held → Held
release_writable client held = delete client held

-- The order of the list is that of their ids; here it is that in which they stand.
unfoldable pub held_clients : Held → List SessionClient
held_clients [] = []
held_clients ((id, since) ∷ held) = record { id = id; writable = true } ∷ held_clients held

-- `attached` is what tmux lists, `none` where it fails.
unfoldable pub list_clients : Option (List SessionClient) → Held → Option (List SessionClient)
unfolding held_clients
list_clients none held = none
list_clients (some attached) held = some (attached ++ held_clients held)

unfoldable pub first_writable_other : List SessionClient → String → Option SessionClient
first_writable_other [] exclude = none
first_writable_other (c ∷ clients) exclude =
    let rest = first_writable_other clients exclude in
    if c.writable && not (str_eq c.id exclude) then some c else rest

pub data SendError : Type 0 where
  session_not_running input_rejected : SendError
  writable_client_present : String → SendError

-- tmux and the rule file as they answer: whether the session runs, the clients, and whether the
-- refresh of CLAUDE.md and the sending succeed.
pub record Tmux : Type 0 where
  pub has_session : Bool
  pub attached : Option (List SessionClient)
  pub syncs : Bool
  pub sends : Bool

-- Whether text was handed to tmux, and the error.
unfoldable pub deliver : Tmux → Bool × Option SendError
deliver t =
    if t.syncs
    then (true, (if t.sends then none else some input_rejected))
    else (false, some input_rejected)

unfoldable pub send_past : Tmux → Option SessionClient → Bool × Option SendError
unfolding deliver
send_past t (some c) = (false, some (writable_client_present c.id))
send_past t none = deliver t

unfoldable pub send_to : Tmux → Option (List SessionClient) → String → Bool × Option SendError
unfolding send_past first_writable_other
send_to t none client = (false, some input_rejected)
send_to t (some clients) client = send_past t (first_writable_other clients client)

unfoldable pub send_input_from : Tmux → Held → String → Bool × Option SendError
unfolding send_to list_clients
send_input_from t held client =
    if t.has_session
    then send_to t (list_clients t.attached held) client
    else (false, some session_not_running)

-- POST /input, for a body that decodes.
unfoldable pub input_status : Option SendError → ℕ
input_status none = 204
input_status (some input_rejected) = 500
input_status (some session_not_running) = 409
input_status (some (writable_client_present id)) = 409
