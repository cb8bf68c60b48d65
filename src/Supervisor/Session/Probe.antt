-- ===== src/Supervisor/Session/Probe.antt =====
-- probe.go: a request to the session, and the check of its authentication.
-- The text of an error is not modelled beyond its kind.
use parallel_workspace_serve.Prelude.{
  String, Bool, true, false, List, [], ◌∷◌, Option, none, some, ◌&&◌, not, str_eq, if◌then◌else◌,
  Dict,
}
use parallel_workspace_serve.Supervisor.Session.Transcript.{
  TurnState, TurnKind, turn_completed, turn_failed,
}
use parallel_workspace_serve.Supervisor.Session.Health.{Health, mark_unusable, clear_unusable}

-- A poll: the state, `none` where it cannot be read, and whether the deadline has passed by then.
pub record Poll : Type 0 where
  pub state : Option TurnState
  pub late : Bool

-- `unfinished` where the polls of the list do not decide.
pub data Requested : Type 0 where
  completed : Requested
  request_failed : String → Requested
  unfinished : Requested

abbrev pub is_completed : TurnKind → Bool
is_completed turn_completed = true
is_completed _ = false

abbrev pub is_failed : TurnKind → Bool
is_failed turn_failed = true
is_failed _ = false

-- A turn that ended since the snapshot.
abbrev pub is_new : String → TurnState → Bool
is_new before state = not (str_eq state.ended_at before)

unfoldable pub await_turn : String → List Poll → Requested
await_turn before [] = unfinished
await_turn before (poll ∷ polls) =
    let rest = await_turn before polls in
    elim poll.state [
      | none ↦ request_failed "could not read the turn state"
      | some state ↦
          if is_completed state.kind && is_new before state
          then completed
          else if is_failed state.kind && is_new before state
          then request_failed state.detail
          else if poll.late
          then request_failed "did not complete"
          else rest
    ]

-- The snapshot, whether the input reached the session, and the polls.
unfoldable pub request : Option TurnState → Bool → List Poll → Requested
request none sent polls = request_failed "could not read the turn state"
request (some before) false polls = request_failed "could not reach the session"
request (some before) true polls = await_turn before.ended_at polls

-- The server's health, the marks, and the error, if there is one.
unfoldable pub auth_probe :
    Bool → Bool → Requested → Health → Dict String → Health × Dict String × Option String
auth_probe written removed result health marks =
    let source : Health = record {
      has_config_dir = health.has_config_dir;
      source = "auth";
      unusable = "";
    } in
    elim result [
      | completed ↦ (health, (clear_unusable removed source marks).1, none)
      | unfinished ↦ (health, marks, none)
      | request_failed detail ↦
          let (health', marks') = mark_unusable written detail health marks in
          (health', (mark_unusable written detail source marks').1, some detail)
    ]
