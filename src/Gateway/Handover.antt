-- ===== src/Gateway/Handover.antt =====
-- gateway/internal/gateway/handover.go: the handler of POST /handover.
-- What its collaborators answer (the workspace store, the decoder of the body, the supervisor over
-- HTTP) is an argument; a status code is a number.
pub mod Grants
use parallel_workspace_serve.Prelude.{
  ℕ, String, Bool, true, false, List, [], ◌∷◌, Option, none, some, ◌==◌, if◌then◌else◌, any,
}
use parallel_workspace_serve.Gateway.BrowserSessions.{Sessions, promote, release}

-- The errors of the workspace store that `writeStoreError` tells apart.
pub data StoreError : Type 0 where
  not_found already_exists invalid other : StoreError

unfoldable pub write_store_error : StoreError → ℕ
write_store_error not_found = 404
write_store_error already_exists = 409
write_store_error invalid = 400
write_store_error other = 502

pub data Resolved : Type 0 where
  workspace : String → Resolved
  error : StoreError → Resolved

-- An HTTP exchange with the supervisor that failed is `none`, else its status and its body, which
-- is `none` where it does not decode.
pub record Client : Type 0 where
  pub id : String
  pub writable : Bool

pub record Answers : Type 0 where
  pub resolve_host : Resolved
  -- The session id of the body, if the body decodes.
  pub session_id : Option String
  -- Whether the store knows an endpoint of the session.
  pub session_endpoint : Bool
  pub clients : Option (ℕ × Option (List Client))
  -- The status of POST /clients/{id}.
  pub declared : Option ℕ

abbrev pub has_writable : List Client → Bool
has_writable clients = any (λ (c : Client). c.writable) clients

-- Whether `refuseIfWritableClientPresent` returns an error.
unfoldable pub refuse_if_writable_client_present : Option (ℕ × Option (List Client)) → Bool
refuse_if_writable_client_present none = true
refuse_if_writable_client_present (some (status, none)) = true
refuse_if_writable_client_present (some (status, some clients)) =
    if status == 200 then has_writable clients else true

-- Whether `declareWritable` returns an error.
unfoldable pub declare_writable_fails : Option ℕ → Bool
declare_writable_fails none = true
declare_writable_fails (some status) = if status == 204 then false else true

-- From the promotion on. `others` is what other requests do to the sessions while the supervisor
-- is told.
unfoldable pub take_over :
    Answers → String → String → (Sessions → Sessions) → Sessions → ℕ × Sessions
unfolding declare_writable_fails
take_over a ws id others b =
    let (b', ok, known) = promote ws id b in
    elim known [
      | false ↦ (404, b')
      | true ↦ elim ok [
        | false ↦ (409, b')
        | true ↦ elim (declare_writable_fails a.declared) [
          | true ↦ (502, release ws id (others b'))
          | false ↦ (200, others b')
        ]
      ]
    ]

unfoldable pub handover : Answers → (Sessions → Sessions) → Sessions → ℕ × Sessions
unfolding refuse_if_writable_client_present write_store_error
handover a others b = elim a.resolve_host [
  | error e ↦ (write_store_error e, b)
  | workspace ws ↦ elim a.session_id [
    | none ↦ (400, b)
    | some id ↦ elim a.session_endpoint [
      | false ↦ (404, b)
      | true ↦ elim (refuse_if_writable_client_present a.clients) [
        | true ↦ (409, b)
        | false ↦ take_over a ws id others b
      ]
    ]
  ]
]
