-- ===== src/Gateway/SessionIssuer.antt =====
-- gateway/internal/gateway/session_issuer.go: the gateway's own sessions.
-- The JWT library is two functions: it signs claims by a key, and it gives back the claims of a
-- token that it accepts at a time.
pub mod Revocation
use parallel_workspace_serve.Prelude.{
  ℕ, ◌+◌, String, Bool, true, false, Option, none, some, ltb, str_eq, if◌then◌else◌, lookup, List,
  [], ◌∷◌, not, ◌||◌,
}
use parallel_workspace_serve.Gateway.UserStore.{
  UserRecord, Users, Stored, absent, present, undecodable, unreadable,
}

pub record Subject : Type 0 where
  pub id : String
  pub name : String
  pub source : String

pub record SessionClaims : Type 0 where
  pub subject : String
  pub name : String
  pub source : String
  pub issued_at_nano : ℕ
  pub expires_at : ℕ

pub record Jwt : Type 0 where
  -- NewNumericDate, which cuts a time down to the precision of a token.
  pub numeric_date : ℕ → ℕ
  -- `none` where signing fails.
  pub sign : String → SessionClaims → Option String
  -- The claims of a token with a valid HS256 signature by the key that has not expired.
  pub parse : String → ℕ → String → Option SessionClaims

pub data SessionError : Type 0 where
  no_signing_key no_subject no_token rejected lookup_failed predates_change sign_failed :
      SessionError

pub data Session (A : Type 0) : Type 0 where
  session : A → Session A
  refused : SessionError → Session A

-- `key` is "" where the issuer has none. The result is the token and its expiry.
unfoldable pub issue : Jwt → String → Subject → ℕ → ℕ → Session (String × ℕ)
issue jwt key subject ttl now =
    if str_eq key ""
    then refused no_signing_key
    else (if str_eq subject.id ""
        then refused no_subject
        else elim (jwt.sign key (record {
          subject = subject.id;
          name = subject.name;
          source = subject.source;
          issued_at_nano = now;
          expires_at = jwt.numeric_date (now + ttl);
        })) [ none ↦ refused sign_failed | some token ↦ session (token, now + ttl) ])

abbrev pub subject_of : SessionClaims → Subject
subject_of claims = record { id = claims.subject; name = claims.name; source = claims.source }

-- The user's record has to be there and be no younger than the session.
abbrev pub check_record : SessionClaims → Option UserRecord → Session Subject
check_record claims none = refused predates_change
check_record claims (some rec) =
    if ltb claims.issued_at_nano rec.updated_at
    then refused predates_change
    else session (subject_of claims)

unfoldable pub check_users : SessionClaims → Stored → Session Subject
check_users claims absent = check_record claims none
check_users claims (present users) = check_record claims (lookup claims.subject users)
check_users claims undecodable = refused lookup_failed
check_users claims unreadable = refused lookup_failed

-- `users` is what the User Store reads, `none` where the issuer has no store.
unfoldable pub verify_session : Jwt → String → Option Stored → ℕ → String → Session Subject
unfolding check_users
verify_session jwt key users now token =
    if str_eq key ""
    then refused no_signing_key
    else (if str_eq token "" then refused no_token else elim (jwt.parse key now token) [
      | none ↦ refused rejected
      | some claims ↦ if str_eq claims.subject "" then refused no_subject else elim users [
        | none ↦ session (subject_of claims)
        | some stored ↦ check_users claims stored
      ]
    ])

-- The users that `verify_session` looks up, where the issuer has a store.
unfoldable pub looked_up : Jwt → String → Bool → ℕ → String → List String
looked_up jwt key configured now token =
    if str_eq key "" || str_eq token "" then [] else elim (jwt.parse key now token) [
      | none ↦ []
      | some claims ↦ if str_eq claims.subject "" || not configured then [] else claims.subject ∷ []
    ]
