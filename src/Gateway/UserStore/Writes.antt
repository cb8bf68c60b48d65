-- ===== src/Gateway/UserStore/Writes.antt =====
-- userstore.go: what reaches the Secret, and what a changed password does.
use native.Mathlib.Decide.{ℕ_discrete}
use parallel_workspace_serve.Prelude.{
  ℕ, zero, suc, ◌+◌, ◌≤◌, ◌<◌, String, Bool, true, false, [], Option, none, some, if◌then◌else◌,
  ◌≡◌, ◌≢◌, lookup, lookup-insert, arith, refl, eq_refl, str_eq, inl, inr, Option-cases, subst,
}
use parallel_workspace_serve.Gateway.UserStore.{
  UserRecord, Users, Stored, Server, Bcrypt, Change, Mutated, max_user_store_retries, changed,
  unchanged, wrote, kept, error, done, conflict, absent, present, undecodable, unreadable,
  too_many_conflicts, verified, read, mutate_from, mutate, ensure_change, write_hash, ensure_user,
  set_change, set_password, verify,
}

-- A write that was accepted stands on what its own attempt read, and every attempt before it met a
-- conflict.
abbrev pub Honest : Server → (Users → Change) → ℕ → Mutated → Type 0
Honest s fn n (wrote k users) =
    (n ≤ k)
    × (read (s.stored k) fn ≡ changed users)
    × (s.answer k ≡ done)
    × ((i : ℕ) → n ≤ i → i < k → s.answer i ≡ conflict)
Honest s fn n (kept k) = (n ≤ k) × (read (s.stored k) fn ≡ unchanged)
Honest s fn n (error e) = Unit

mutate_from-Honest :
    (s : Server) (fn : Users → Change) (left n : ℕ) → Honest s fn n (mutate_from s fn left n)
unfolding mutate_from
mutate_from-Honest s fn zero n = tt
mutate_from-Honest s fn (suc left) n = grind (arith, mutate_from-Honest s fn left (n + 1))

mutate-Honest :
    (configured : Bool) (s : Server) (fn : Users → Change) → Honest s fn 0 (mutate configured s fn)
unfolding mutate
mutate-Honest false s fn = tt
mutate-Honest true s fn = mutate_from-Honest s fn max_user_store_retries 0

-- The users that an attempt reads; no Secret yet is no user.
abbrev pub users_of : Stored → Option Users
users_of absent = some []
users_of (present users) = some users
users_of undecodable = none
users_of unreadable = none

-- The map `after` is `base` with one entry set: that user's hash is of the password.
abbrev pub Sets : Bcrypt → ℕ → String → String → Users → Users → Type 0
Sets crypt now username password base after =
    (hash : String) × (crypt.generate password ≡ some hash)
    × ((j : String)
        → lookup j after ≡ (
            if str_eq username j
            then some (record { password_hash = hash; updated_at = now })
            else lookup j base))

-- What an accepted write of `after` at attempt `k` tells: the users that the attempt read, the one
-- entry that was set, and that every earlier attempt met a conflict.
pub record Accepted (crypt : Bcrypt) (now : ℕ) (s : Server) (username password : String) (k : ℕ)
    (after : Users) : Type 0 where
  pub base : Users
  pub was_read : users_of (s.stored k) ≡ some base
  pub sets : Sets crypt now username password base after
  pub answered : s.answer k ≡ done
  pub conflicts : (i : ℕ) → i < k → s.answer i ≡ conflict

write_hash-Sets :
    (crypt : Bcrypt) (now : ℕ) (username password : String) (base after : Users)
    → write_hash crypt now username password base ≡ changed after
    → Sets crypt now username password base after
write_hash-Sets crypt now username password base after h =
    elim (Option-cases (crypt.generate password)) [
      | inl no_hash ↦ ground arith
      | inr (hash, e) ↦ (
        hash,
        e,
        λ j. ground (
          arith,
          lookup-insert username j (record { password_hash = hash; updated_at = now }) base,
        ),
      )
    ]

ensure_change-inv :
    (crypt : Bcrypt) (now : ℕ) (username password : String) (base after : Users)
    → ensure_change crypt now username password base ≡ changed after
    → (lookup username base ≡ none) × (write_hash crypt now username password base ≡ changed after)
unfolding ensure_change
ensure_change-inv crypt now username password base after h = ground arith

set_change-inv :
    (crypt : Bcrypt) (now : ℕ) (username password : String) (base after : Users)
    → set_change crypt now username password base ≡ changed after
    → (lookup username base ≢ none) × (write_hash crypt now username password base ≡ changed after)
unfolding set_change
set_change-inv crypt now username password base after h = ground arith

read-changed :
    (r : Stored) (fn : Users → Change) (after : Users)
    → read r fn ≡ changed after
    → (base : Users) × (users_of r ≡ some base) × (fn base ≡ changed after)
unfolding read
read-changed absent fn after h = ([], refl, h)
read-changed (present users) fn after h = (users, refl, h)
read-changed undecodable fn after h = cc
read-changed unreadable fn after h = cc

-- `EnsureUser` writes only over a read in which the user is missing, so it never replaces a user,
-- and then adds that user alone.
pub ensure_user-Accepted :
    (crypt : Bcrypt) (now : ℕ) (configured : Bool) (s : Server) (username password : String) (k : ℕ)
    (after : Users)
    → ensure_user crypt now configured s username password ≡ wrote k after
    → (a : Accepted crypt now s username password k after) × (lookup username a.base ≡ none)
unfolding ensure_user
ensure_user-Accepted crypt now configured s username password k after h =
    let fn = ensure_change crypt now username password in
    let (_, was_read, answered, conflicts) =
      subst (Honest s fn 0) h (mutate-Honest configured s fn) in
    let (base, e, c) = read-changed (s.stored k) fn after was_read in
    let (missing, w) = ensure_change-inv crypt now username password base after c in
    (
      record {
        base = base;
        was_read = e;
        sets = write_hash-Sets crypt now username password base after w;
        answered = answered;
        conflicts = λ i below. conflicts i (omega arith) below;
      },
      missing,
    )

-- `SetPassword` writes only over a read in which the user exists, and changes that user alone.
pub set_password-Accepted :
    (crypt : Bcrypt) (now : ℕ) (configured : Bool) (s : Server) (username password : String) (k : ℕ)
    (after : Users)
    → set_password crypt now configured s username password ≡ wrote k after
    → (a : Accepted crypt now s username password k after) × (lookup username a.base ≢ none)
unfolding set_password
set_password-Accepted crypt now configured s username password k after h =
    let fn = set_change crypt now username password in
    let (_, was_read, answered, conflicts) =
      subst (Honest s fn 0) h (mutate-Honest configured s fn) in
    let (base, e, c) = read-changed (s.stored k) fn after was_read in
    let (known, w) = set_change-inv crypt now username password base after c in
    (
      record {
        base = base;
        was_read = e;
        sets = write_hash-Sets crypt now username password base after w;
        answered = answered;
        conflicts = λ i below. conflicts i (omega arith) below;
      },
      known,
    )

-- The password just set is the one that verifies, where bcrypt accepts what it hashed.
pub verify-set_password :
    (crypt : Bcrypt) (now : ℕ) (configured : Bool) (s : Server) (username password : String) (k : ℕ)
    (after : Users)
    → ((p hash : String) → crypt.generate p ≡ some hash → crypt.matches hash p ≡ true)
    → set_password crypt now configured s username password ≡ wrote k after
    → (rec : UserRecord) × (verify crypt (present after) username password ≡ verified rec)
      × (rec.updated_at ≡ now)
unfolding verify
verify-set_password crypt now configured s username password k after accepts h =
    let (a, _) = set_password-Accepted crypt now configured s username password k after h in
    let (hash, e, entry) = a.sets in
    (
      record { password_hash = hash; updated_at = now },
      ground (arith, entry username, eq_refl username, accepts password hash),
      refl,
    )

mutate_from_retries :
    (s : Server) (fn : Users → Change) (after : ℕ → Users) (left n k : ℕ)
    → n ≤ k
    → k < n + left
    → ((i : ℕ) → read (s.stored i) fn ≡ changed (after i))
    → ((i : ℕ) → i < k → s.answer i ≡ conflict)
    → s.answer k ≡ done
    → mutate_from s fn left n ≡ wrote k (after k)
unfolding mutate_from
mutate_from_retries s fn after zero n k h l reads conflicts ok = absurd (omega arith)
mutate_from_retries s fn after (suc left) n k h l reads conflicts ok = elim (ℕ_discrete n k) [
  | yes now ↦ ground (arith, reads k)
  | no later ↦ ground (
    arith,
    reads n,
    conflicts n,
    mutate_from_retries s fn after left (n + 1) k (omega arith) (omega arith) reads conflicts ok,
  )
]

mutate_from_gives_up :
    (s : Server) (fn : Users → Change) (after : ℕ → Users) (left n : ℕ)
    → ((i : ℕ) → read (s.stored i) fn ≡ changed (after i))
    → ((i : ℕ) → i < n + left → s.answer i ≡ conflict)
    → mutate_from s fn left n ≡ error too_many_conflicts
unfolding mutate_from
mutate_from_gives_up s fn after zero n reads conflicts = refl
mutate_from_gives_up s fn after (suc left) n reads conflicts = ground (
  arith,
  reads n,
  conflicts n (omega arith),
  mutate_from_gives_up s fn after left (n + 1) reads (λ i l. conflicts i (omega arith)),
)

-- Where every read gives something to write, the write that follows up to four conflicts is made
-- if the server accepts it; and after five conflicts the mutation is an error.
pub mutate_retries :
    (s : Server) (fn : Users → Change) (after : ℕ → Users) (k : ℕ)
    → ((i : ℕ) → read (s.stored i) fn ≡ changed (after i))
    → ((i : ℕ) → i < k → s.answer i ≡ conflict)
    → (s.answer k ≡ done → k < 5 → mutate true s fn ≡ wrote k (after k))
      × (5 ≤ k → mutate true s fn ≡ error too_many_conflicts)
unfolding mutate
mutate_retries s fn after k reads conflicts = (
  λ ok h.
      mutate_from_retries s fn after max_user_store_retries 0 k (omega arith) (omega arith) reads
        conflicts ok,
  λ h.
      mutate_from_gives_up s fn after max_user_store_retries 0 reads
        (λ i l. conflicts i (omega arith)),
)
