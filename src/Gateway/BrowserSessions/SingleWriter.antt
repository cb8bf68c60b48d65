-- ===== src/Gateway/BrowserSessions/SingleWriter.antt =====
-- handover.go: at most one browser connection of a workspace may write, whatever is called when.
use parallel_workspace_serve.Prelude.{
  ◌+◌, String, Bool, true, false, [], ◌∷◌, none, some, ◌&&◌, not, str_eq, eq_iff, eq_refl,
  if◌then◌else◌, Dict, lookup, any, length, ◌≡◌, arith, refl, ap, ◌∙◌, lookup-insert, delete-insert,
  delete_absent, length-insert, insert, delete,
}
use parallel_workspace_serve.Gateway.BrowserSessions.{
  Sessions, of_workspace, attach, detach, promote, release, writable,
}
use parallel_workspace_serve.Gateway.BrowserSessions.Writers.{
  is_at, writable-attach, writable-detach, writable-promote, writable-release,
}

-- Two sessions of one workspace that may both write are the same.
abbrev pub SingleWriter : Sessions → Type 0
SingleWriter b = (w i j : String) → writable w i b ≡ true → writable w j b ≡ true → i ≡ j

-- One call of a method, by any request of any workspace.
pub data Step : Sessions → Sessions → Type 0 where
  attaches : (workspace id : String) (b : Sessions) → Step b (attach workspace id b).0
  detaches : (workspace id : String) (b : Sessions) → Step b (detach workspace id b).0
  promotes : (workspace id : String) (b : Sessions) → Step b (promote workspace id b).0
  releases : (workspace id : String) (b : Sessions) → Step b (release workspace id b)

-- Any interleaving of calls.
pub data Steps (a : Sessions) : Sessions → Type 0 where
  here : Steps a a
  next : {b c : Sessions} → Steps a b → Step b c → Steps a c

any-lookup :
    (p : String × Bool → Bool) (j : String) (v : Bool) (m : Dict Bool)
    → lookup j m ≡ some v
    → p (j, v) ≡ true
    → any p m ≡ true
unfolding lookup
any-lookup p j v [] h k = cc
any-lookup p j v ((i, x) ∷ m) h k = ground (arith, eq_iff i j, any-lookup p j v m)

-- A promotion that succeeds leaves no other writer in its workspace.
pub promote_alone :
    (workspace id j : String) (b : Sessions)
    → (promote workspace id b).1 ≡ true
    → writable workspace j b ≡ true
    → j ≡ id
unfolding promote writable
promote_alone workspace id j b h k = ground (
  arith,
  eq_iff j id,
  any-lookup (λ e. e.1 && not (str_eq e.0 id)) j true (of_workspace workspace b),
)

pub Step-SingleWriter : {b c : Sessions} → Step b c → SingleWriter b → SingleWriter c
Step-SingleWriter (attaches workspace id b) s w i j h k =
    ground (arith, writable-attach workspace id w i b, writable-attach workspace id w j b, s w i j)
Step-SingleWriter (detaches workspace id b) s w i j h k =
    ground (arith, writable-detach workspace id w i b, writable-detach workspace id w j b, s w i j)
Step-SingleWriter (releases workspace id b) s w i j h k =
    ground
      (arith, writable-release workspace id w i b, writable-release workspace id w j b, s w i j)
Step-SingleWriter (promotes workspace id b) s w i j h k = ground (
  arith,
  writable-promote workspace id w i b,
  writable-promote workspace id w j b,
  eq_iff workspace w,
  eq_iff id i,
  eq_iff id j,
  promote_alone workspace id i b,
  promote_alone workspace id j b,
  s w i j,
)

-- From a state with at most one writer per workspace, such as the empty one, every interleaving of
-- attach, detach, promote and release calls leads to a state with at most one.
pub Steps-SingleWriter : {a b : Sessions} → Steps a b → SingleWriter a → SingleWriter b
Steps-SingleWriter here s = s
Steps-SingleWriter (next r st) s = Step-SingleWriter st (Steps-SingleWriter r s)

of_workspace-attach :
    (workspace id : String) (b : Sessions)
    → of_workspace workspace (attach workspace id b).0 ≡ insert id false (of_workspace workspace b)
unfolding attach
of_workspace-attach workspace id b = ground (
  arith,
  eq_refl workspace,
  lookup-insert workspace workspace (insert id false (of_workspace workspace b)) b,
)

delete-of_workspace-attach :
    (workspace id : String) (b : Sessions)
    → lookup id (of_workspace workspace b) ≡ none
    → delete id (of_workspace workspace (attach workspace id b).0) ≡ of_workspace workspace b
delete-of_workspace-attach workspace id b fresh = rw (of_workspace-attach workspace id b) (
    delete-insert id false (of_workspace workspace b) fresh
    ∙ delete_absent id (of_workspace workspace b) fresh)

attached_count :
    (workspace id : String) (b : Sessions)
    → lookup id (of_workspace workspace b) ≡ none
    → (attach workspace id b).1 ≡ length (of_workspace workspace b) + 1
unfolding attach
attached_count workspace id b fresh = length-insert id false (of_workspace workspace b) fresh

remaining_count :
    (workspace id : String) (b : Sessions)
    → (detach workspace id b).1 ≡ length (delete id (of_workspace workspace b))
unfolding detach
remaining_count workspace id b = refl

writable_fresh :
    (workspace id w j : String) (b : Sessions)
    → lookup id (of_workspace workspace b) ≡ none
    → (if is_at workspace id w j then false else writable w j b) ≡ writable w j b
unfolding writable
writable_fresh workspace id w j b fresh = ground (arith, eq_iff workspace w, eq_iff id j)

-- A fresh connection counts one more; when it goes away the count is that of before, and so is who
-- may write.
pub detach-attach :
    (workspace id w j : String) (b : Sessions)
    → lookup id (of_workspace workspace b) ≡ none
    → let (b', attached) = attach workspace id b in
      let (b'', remaining) = detach workspace id b' in
      (attached ≡ length (of_workspace workspace b) + 1)
      × (remaining ≡ length (of_workspace workspace b))
      × (writable w j b'' ≡ writable w j b)
detach-attach workspace id w j b fresh =
    let b' = (attach workspace id b).0 in
    (
      attached_count workspace id b fresh,
      remaining_count workspace id b' ∙ ap length (delete-of_workspace-attach workspace id b fresh),
      ground (
        arith,
        writable-detach workspace id w j b',
        writable-attach workspace id w j b,
        writable_fresh workspace id w j b fresh,
      ),
    )
