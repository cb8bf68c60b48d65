-- ===== src/Gateway/SessionIssuer/Revocation.antt =====
-- session_issuer.go: which sessions verify, and what a password change does to them.
use parallel_workspace_serve.Prelude.{
  ℕ, ◌+◌, ◌≤◌, ◌<◌, String, Bool, some, eq_iff, eq_refl, lookup, ◌≡◌, ◌≢◌, arith, Option-cases, inl,
  inr,
}
use parallel_workspace_serve.Gateway.UserStore.{
  UserRecord, Users, present, Bcrypt, Server, wrote, set_password,
}
use parallel_workspace_serve.Gateway.UserStore.Writes.{set_password-Accepted}
use parallel_workspace_serve.Gateway.SessionIssuer.{
  Subject, SessionClaims, Jwt, session, issue, verify_session,
}

-- The contract of the JWT library: what it signed it gives back until it expires, unchanged.
abbrev pub SignsAndParses : Jwt → Type 0
SignsAndParses jwt =
    (key token : String) (claims : SessionClaims) (now : ℕ)
    → jwt.sign key claims ≡ some token
    → now < claims.expires_at
    → jwt.parse key now token ≡ some claims

-- A session that was issued verifies as its own subject until its expiry, cut to the precision of
-- a token, as long as the user's
-- record is there and has not changed since.
pub verify-issue :
    (jwt : Jwt) (key token : String) (subject : Subject) (ttl issued now expiry : ℕ) (users : Users)
    (rec : UserRecord)
    → SignsAndParses jwt
    → token ≢ ""
    → issue jwt key subject ttl issued ≡ session (token, expiry)
    → now < jwt.numeric_date expiry
    → lookup subject.id users ≡ some rec
    → rec.updated_at ≤ issued
    → verify_session jwt key (some (present users)) now token ≡ session subject
unfolding issue verify_session
verify-issue jwt key token subject ttl issued now expiry users rec contract named h fresh e same =
    let claims : SessionClaims = record {
      subject = subject.id;
      name = subject.name;
      source = subject.source;
      issued_at_nano = issued;
      expires_at = jwt.numeric_date (issued + ttl);
    } in
    elim (Option-cases (jwt.sign key claims)) [
      | inl unsigned ↦ ground arith
      | inr (signed, made) ↦ ground (arith, eq_iff token "", contract key signed claims now made)
    ]

-- After `SetPassword` wrote at a later time, a session issued before never verifies against the
-- store that it left, whatever it was signed for.
pub set_password-revokes :
    (jwt : Jwt) (key token : String) (crypt : Bcrypt) (changed_at now : ℕ) (configured : Bool)
    (s : Server) (username password : String) (k : ℕ) (after : Users) (claims : SessionClaims)
    → set_password crypt changed_at configured s username password ≡ wrote k after
    → jwt.parse key now token ≡ some claims
    → claims.subject ≡ username
    → claims.issued_at_nano < changed_at
    → (subject : Subject)
    → verify_session jwt key (some (present after)) now token ≢ session subject
unfolding verify_session
set_password-revokes jwt key token crypt changed_at now configured s username password k after
      claims h p of_user older subject =
    let (a, _) = set_password-Accepted crypt changed_at configured s username password k after h in
    let (hash, _, entry) = a.sets in
    λ verified.
      ground (arith, entry claims.subject, eq_refl username, eq_iff username claims.subject)
