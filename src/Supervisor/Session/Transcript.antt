-- ===== src/Supervisor/Session/Transcript.antt =====
-- transcript.go: the state of the turn, read from the record of the session.
-- The JSON library is an argument: `parse` reads a line as a record, or fails.

use Prim.Native.Char.{code}
use parallel_workspace_serve.Prelude.{
  String, Bool, List, [], ◌∷◌, Option, none, some, ◌||◌, ◌==◌, str_eq, if◌then◌else◌,
}

pub data TurnKind : Type 0 where
  turn_idle turn_running turn_awaiting_tool turn_completed turn_failed : TurnKind

pub record TurnState : Type 0 where
  pub kind : TurnKind
  pub started_at : String
  pub reason : String
  pub model : String
  pub ended_at : String
  pub detail : String
  pub error_kind : String

abbrev pub idle_state : TurnState
idle_state = record {
  kind = turn_idle;
  started_at = "";
  reason = "";
  model = "";
  ended_at = "";
  detail = "";
  error_kind = "";
}

-- The message; its content is left as text.
pub record TranscriptMessage : Type 0 where
  pub model : String
  pub stop_reason : String
  pub content : String

pub record TranscriptRecord : Type 0 where
  pub type : String
  pub is_meta : Bool
  pub is_error : Bool
  pub time : String
  pub message : Option TranscriptMessage

pub record ContentBlock : Type 0 where
  pub type : String
  pub name : String

-- What json.Unmarshal gives of a line and of a content: a text or blocks. `parse_error` decodes the
-- envelope at the start of a text, its type and message; `none` where that or its error is missing.
pub record Json : Type 0 where
  pub parse : String → Option TranscriptRecord
  pub parse_text : String → Option String
  pub parse_blocks : String → Option (List ContentBlock)
  pub parse_error : String → Option (String × String)

-- From the first brace on, `none` without one.
unfoldable pub from_brace : String → Option String
from_brace String.[] = none
from_brace (String.◌∷◌ c s) =
    let rest = from_brace s in if code c == 123 then some (String.◌∷◌ c s) else rest

unfoldable pub tool_of : List ContentBlock → String
tool_of [] = ""
tool_of (b ∷ blocks) =
    let rest = tool_of blocks in if str_eq b.type "tool_use" then b.name else rest

module _ (json : Json) where
  unfoldable pub api_error_from : String → String × String
  api_error_from content = elim (json.parse_text content) [
    | none ↦ ("", "")
    | some text ↦ elim (from_brace text) [
      | none ↦ ("", "")
      | some envelope ↦ elim (json.parse_error envelope) [ none ↦ ("", "") | some error ↦ error ]
    ]
  ]

  unfoldable pub tool_name : String → String
  tool_name content = elim (json.parse_blocks content) [ none ↦ "" | some blocks ↦ tool_of blocks ]

  abbrev pub failed_at : String → String × String → TurnState
  failed_at time error = record idle_state {
    kind = turn_failed;
    error_kind = error.0;
    detail = error.1;
    ended_at = time;
  }

  abbrev pub is_final : String → Bool
  is_final reason =
      str_eq reason "end_turn" || str_eq reason "stop_sequence" || str_eq reason "max_tokens"

  unfoldable pub assistant_state : String → TranscriptMessage → Option TurnState
  assistant_state time message =
      if is_final message.stop_reason
      then some
          (record idle_state { kind = turn_completed; model = message.model; ended_at = time })
      else if str_eq message.stop_reason "tool_use"
      then some (record idle_state {
        kind = turn_awaiting_tool;
        reason = tool_name message.content;
        model = message.model;
        started_at = time;
      })
      else none

  unfoldable pub message_state : TranscriptRecord → TranscriptMessage → Option TurnState
  message_state rec message =
      if rec.is_meta
      then none
      else if rec.is_error
      then some (failed_at rec.time (api_error_from message.content))
      else if str_eq rec.type "user"
      then some (record idle_state { kind = turn_running; started_at = rec.time })
      else if str_eq rec.type "assistant"
      then assistant_state rec.time message
      else none

  -- `none` for a record that says nothing about the turn.
  unfoldable pub advance : TranscriptRecord → Option TurnState
  advance rec = elim rec.message [ none ↦ none | some message ↦ message_state rec message ]

  -- A line that does not parse says nothing either.
  unfoldable pub advance_line : TurnState → String → TurnState
  advance_line state line = elim (json.parse line) [
    | none ↦ state
    | some rec ↦ elim (advance rec) [ none ↦ state | some next ↦ next ]
  ]

  -- The scan of the newest transcript, from its lines.
  unfoldable pub turn_state_of : TurnState → List String → TurnState
  turn_state_of state [] = state
  turn_state_of state (line ∷ lines) = turn_state_of (advance_line state line) lines
