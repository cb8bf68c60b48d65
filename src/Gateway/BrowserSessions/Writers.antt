-- ===== src/Gateway/BrowserSessions/Writers.antt =====
-- handover.go: who may write after each method of `browserSessions`.
use parallel_workspace_serve.Prelude.{
  String, Bool, true, false, [], ◌∷◌, none, ◌&&◌, ◌==◌, str_eq, eq_iff, if◌then◌else◌, Dict, lookup,
  insert, delete, length, ◌≡◌, arith, refl, lookup-insert, lookup-delete,
}
use parallel_workspace_serve.Gateway.BrowserSessions.{
  Sessions, of_workspace, attach, detach, promote, release, writable,
}

-- Whether a session is the one of the workspace and id at hand.
abbrev pub is_at : String → String → String → String → Bool
is_at workspace id w j = str_eq workspace w && str_eq id j

-- A connection starts read-only, and attaching changes no other one.
pub writable-attach :
    (workspace id w j : String) (b : Sessions)
    → writable w j (attach workspace id b).0
      ≡ (if is_at workspace id w j then false else writable w j b)
unfolding writable attach
writable-attach workspace id w j b = ground (
  arith,
  eq_iff workspace w,
  lookup-insert workspace w (insert id false (of_workspace workspace b)) b,
  lookup-insert id j false (of_workspace workspace b),
)

pub writable-release :
    (workspace id w j : String) (b : Sessions)
    → writable w j (release workspace id b)
      ≡ (if is_at workspace id w j then false else writable w j b)
unfolding writable release
writable-release workspace id w j b = ground (
  arith,
  eq_iff workspace w,
  eq_iff id j,
  lookup-insert workspace w (insert id false (of_workspace workspace b)) b,
  lookup-insert id j false (of_workspace workspace b),
)

lookup-nil : (m : Dict Bool) (j : String) → (length m == 0) ≡ true → lookup j m ≡ none
unfolding lookup
lookup-nil [] j h = refl
lookup-nil (x ∷ m) j h = ground arith

pub writable-detach :
    (workspace id w j : String) (b : Sessions)
    → writable w j (detach workspace id b).0
      ≡ (if is_at workspace id w j then false else writable w j b)
unfolding writable detach lookup
writable-detach workspace id w j b = ground (
  arith,
  eq_iff workspace w,
  lookup-nil (delete id (of_workspace workspace b)) j,
  lookup-insert workspace w (delete id (of_workspace workspace b)) b,
  lookup-delete workspace w b,
  lookup-delete id j (of_workspace workspace b),
)

pub writable-promote :
    (workspace id w j : String) (b : Sessions)
    → writable w j (promote workspace id b).0
      ≡ (if (promote workspace id b).1 && is_at workspace id w j then true else writable w j b)
unfolding writable promote
writable-promote workspace id w j b = ground (
  arith,
  eq_iff workspace w,
  lookup-insert workspace w (insert id true (of_workspace workspace b)) b,
  lookup-insert id j true (of_workspace workspace b),
)
