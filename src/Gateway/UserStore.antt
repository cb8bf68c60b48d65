-- ===== src/Gateway/UserStore.antt =====
-- gateway/internal/gateway/userstore.go: the gateway's users in one Secret, changed by a
-- conditional write that is retried on a conflict.
-- The API server is an argument: what attempt n reads, and what it answers to the write of attempt
-- n. bcrypt is two functions, and the JSON and base64 codecs are not part of the model: a Secret
-- holds the map of users, or something that does not decode.
pub mod Writes
use parallel_workspace_serve.Prelude.{
  ℕ, zero, suc, ◌+◌, String, Bool, true, false, List, [], ◌∷◌, Option, none, some, ◌==◌,
  if◌then◌else◌, Dict, lookup, insert,
}

pub record UserRecord : Type 0 where
  pub password_hash : String
  pub updated_at : ℕ

abbrev pub Users : Type 0
Users = Dict UserRecord

pub data Error : Type 0 where
  invalid_credential user_not_found hash_failed incomplete_configuration : Error
  read_failed not_decodable write_failed too_many_conflicts : Error

-- What `read` gets: no Secret yet, a Secret with its users, or an error.
pub data Stored : Type 0 where
  absent : Stored
  present : Users → Stored
  undecodable : Stored
  unreadable : Stored

-- What the API server answers to Create or Update; `conflict` is AlreadyExists of a Create and
-- Conflict of an Update.
pub data Answer : Type 0 where
  done conflict refused : Answer

pub record Server : Type 0 where
  pub stored : ℕ → Stored
  pub answer : ℕ → Answer

pub record Bcrypt : Type 0 where
  -- GenerateFromPassword, `none` where it fails.
  pub generate : String → Option String
  -- CompareHashAndPassword returned nil.
  pub matches : String → String → Bool

-- What a mutation made of the users it read: a new map, no change, or an error.
pub data Change : Type 0 where
  changed : Users → Change
  unchanged : Change
  rejected : Error → Change

-- What `mutate` did: the write of an attempt was accepted, nothing had to be written (decided by
-- what that attempt read), or an error.
pub data Mutated : Type 0 where
  wrote : ℕ → Users → Mutated
  kept : ℕ → Mutated
  error : Error → Mutated

abbrev pub max_user_store_retries : ℕ
max_user_store_retries = 5

-- `read`: no Secret yet is the empty map.
unfoldable pub read : Stored → (Users → Change) → Change
read absent fn = fn []
read (present users) fn = fn users
read undecodable fn = rejected not_decodable
read unreadable fn = rejected read_failed

-- The loop over the attempts, `left` of them to go from attempt `n`.
unfoldable pub mutate_from : Server → (Users → Change) → ℕ → ℕ → Mutated
mutate_from s fn zero n = error too_many_conflicts
mutate_from s fn (suc left) n = elim (read (s.stored n) fn) [
  | rejected e ↦ error e
  | unchanged ↦ kept n
  | changed users ↦ elim (s.answer n) [
    | done ↦ wrote n users
    | conflict ↦ mutate_from s fn left (n + 1)
    | refused ↦ error write_failed
  ]
]

-- `configured`: the client, the namespace and the Secret's name are set.
unfoldable pub mutate : Bool → Server → (Users → Change) → Mutated
mutate false s fn = error incomplete_configuration
mutate true s fn = mutate_from s fn max_user_store_retries 0

module _ (crypt : Bcrypt) (now : ℕ) where
  abbrev pub write_hash : String → String → Users → Change
  write_hash username password users = elim (crypt.generate password) [
    | none ↦ rejected hash_failed
    | some hash ↦
        changed (insert username (record { password_hash = hash; updated_at = now }) users)
  ]

  -- The function that `EnsureUser` hands to `mutate`.
  unfoldable pub ensure_change : String → String → Users → Change
  ensure_change username password users = elim (lookup username users) [
    | some rec ↦ unchanged
    | none ↦ write_hash username password users
  ]

  unfoldable pub ensure_user : Bool → Server → String → String → Mutated
  ensure_user configured s username password = mutate configured s (ensure_change username password)

  unfoldable pub set_change : String → String → Users → Change
  set_change username password users = elim (lookup username users) [
    | none ↦ rejected user_not_found
    | some rec ↦ write_hash username password users
  ]

  unfoldable pub set_password : Bool → Server → String → String → Mutated
  set_password configured s username password = mutate configured s (set_change username password)

pub data Verified : Type 0 where
  verified : UserRecord → Verified
  denied : Error → Verified

abbrev pub check : Bcrypt → String → Option UserRecord → Verified
check crypt password none = denied invalid_credential
check crypt password (some rec) =
    if crypt.matches rec.password_hash password then verified rec else denied invalid_credential

-- `Verify`, with `Lookup` in it.
unfoldable pub verify : Bcrypt → Stored → String → String → Verified
verify crypt absent username password = check crypt password (lookup username [])
verify crypt (present users) username password = check crypt password (lookup username users)
verify crypt undecodable username password = denied not_decodable
verify crypt unreadable username password = denied read_failed
