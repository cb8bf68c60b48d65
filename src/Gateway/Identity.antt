-- ===== src/Gateway/Identity.antt =====
-- gateway/internal/gateway/identity.go: who is behind a request, with `bearerToken` of auth.go.
-- strings.EqualFold is an argument.

use parallel_workspace_serve.Gateway.UserStore.{Stored}
use Prim.Native.Char.{code}
use parallel_workspace_serve.Prelude.{
  ℕ, ◌-◌, String, Bool, true, false, List, [], ◌∷◌, Option, none, some, ◌&&◌, ltb, ◌==◌,
  if◌then◌else◌, is_blank, trim_space, split_text, not, ◌++◌, map,
}
use parallel_workspace_serve.Controller.Naming.{text_length, take_text}
use parallel_workspace_serve.Gateway.SessionIssuer.{
  Subject, session, refused, Jwt, verify_session, looked_up,
}

pub data Method : Type 0 where
  get head post delete other_method : Method

-- What the handlers read of a request. `segments` is its path, cut at the slashes.
pub record HttpRequest : Type 0 where
  pub method : Method
  pub segments : List String
  pub host : String
  pub authorization : String
  pub ws_protocol : String
  -- The query's sessionId.
  pub session_id : String
  pub body : String

-- The part of a text behind the first n characters, and behind the first space.
unfoldable pub skip_text : ℕ → String → String
skip_text n String.[] = String.[]
skip_text n (String.◌∷◌ c s) =
    let rest = skip_text (n - 1) s in if n == 0 then String.◌∷◌ c s else rest

-- strings.Cut at a space: the parts, or `none` where there is none.
unfoldable pub cut_space : String → Option (String × String)
cut_space String.[] = none
cut_space (String.◌∷◌ c s) = elim (code c == 32) [
  | true ↦ some (String.[], s)
  | false ↦ elim (cut_space s) [
    | none ↦ none
    | some (scheme, token) ↦ some (String.◌∷◌ c scheme, token)
  ]
]

pub data Authenticator : Type 0 where
  idp_authenticator : Authenticator
  local_authenticator : Jwt → String → Bool → Authenticator

-- What is asked to identify a caller: the verifier of foreign tokens, which may fetch the keys of
-- the identity provider, and the user store.
pub data Lookup : Type 0 where
  foreign_token : String → Lookup
  user_record : String → Lookup

-- Who is behind a request, and what was asked to tell.
pub record Identified : Type 0 where
  pub subject : Option Subject
  pub lookups : List Lookup

abbrev named : Option Subject → Bool
named none = false
named (some subject) = not (is_blank subject.id)

module _ (equal_fold : String → String → Bool) where
  unfoldable pub bearer_token : HttpRequest → String
  unfolding cut_space
  bearer_token r = elim (cut_space r.authorization) [
    | none ↦ ""
    | some (scheme, token) ↦ if equal_fold scheme "Bearer" then trim_space token else ""
  ]

  -- "bearer." has seven characters.
  unfoldable pub protocol_token : List String → String
  unfolding skip_text
  protocol_token [] = ""
  protocol_token (proto ∷ protos) =
      let p = trim_space proto in
      let rest = protocol_token protos in
      if ltb 7 (text_length p) && equal_fold (take_text 7 p) "bearer." then skip_text 7 p else rest

  unfoldable pub presented_token : HttpRequest → String
  unfolding bearer_token protocol_token
  presented_token r =
      let rest = protocol_token (split_text 44 r.ws_protocol) in
      if is_blank (bearer_token r) then rest else bearer_token r

  -- `IDPAuthenticator`, over `Verify` of the verifier, and `LocalAuthenticator`, over that of an
  -- issuer: its signing key, and whether it has the user store.
  unfoldable pub idp_identify : (String → Option String) → HttpRequest → Option Subject
  unfolding presented_token
  idp_identify verify r = elim (verify (presented_token r)) [
    | none ↦ none
    | some subject ↦ some (record { id = subject; name = subject; source = "idp" })
  ]

  abbrev store_of : Bool → Stored → Option Stored
  store_of configured users = if configured then some users else none

  -- What the user store holds and the time decide on a session.
  unfoldable pub local_identify : Jwt → String → Bool → Stored → ℕ → HttpRequest → Option Subject
  unfolding presented_token
  local_identify jwt key configured users now r =
      elim (verify_session jwt key (store_of configured users) now (presented_token r)) [
        | session subject ↦ some subject
        | refused e ↦ none
      ]

  -- The verifier refuses an empty token by itself.
  abbrev foreign_lookups : String → List Lookup
  foreign_lookups token = if is_blank token then [] else foreign_token token ∷ []

  -- Who is behind a request for one authenticator, and what it has asked. `verify` is `Verify` of
  -- the verifier, as it answers then.
  unfoldable pub authenticate :
      (String → Option String) → Stored → ℕ → Authenticator → HttpRequest → Identified
  unfolding idp_identify local_identify presented_token
  authenticate verify users now idp_authenticator r = record {
    subject = idp_identify verify r;
    lookups = foreign_lookups (presented_token r);
  }
  authenticate verify users now (local_authenticator jwt key configured) r = record {
    subject = local_identify jwt key configured users now r;
    lookups = map user_record (looked_up jwt key configured now (presented_token r));
  }

  -- An authenticator that accepts a subject with an id ends the search.
  abbrev or_next : Identified → Identified → Identified
  or_next who next = elim (named who.subject) [
    | true ↦ who
    | false ↦ record next { lookups = who.lookups ++ next.lookups }
  ]

  unfoldable pub identify_by :
      (String → Option String) → Stored → ℕ → List Authenticator → HttpRequest → Identified
  unfolding authenticate
  identify_by verify users now [] r = record { subject = none; lookups = [] }
  identify_by verify users now (a ∷ authenticators) r =
      or_next (authenticate verify users now a r) (identify_by verify users now authenticators r)

  -- `none` is a gateway without an Identity.
  unfoldable pub identify :
      (String → Option String) → Stored → ℕ → Option (List Authenticator) → HttpRequest → Identified
  unfolding identify_by
  identify verify users now none r = record { subject = none; lookups = [] }
  identify verify users now (some authenticators) r = identify_by verify users now authenticators r
