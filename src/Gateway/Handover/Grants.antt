-- ===== src/Gateway/Handover/Grants.antt =====
-- handover.go: what a handover grants, and that one that is refused grants nothing.
use parallel_workspace_serve.Prelude.{
  ℕ, String, true, false, some, ◌≡◌, ◌≢◌, arith, refl, eq_refl, eq_iff, if◌then◌else◌, ap, sym, ◌∙◌,
  ◌⊎◌, inl, inr, Option-cases, Bool-cases, List, [], ◌∷◌, Option, none,
}
use parallel_workspace_serve.Gateway.BrowserSessions.{Sessions, promote, writable}
use parallel_workspace_serve.Gateway.BrowserSessions.Writers.{
  is_at, writable-promote, writable-release,
}
use parallel_workspace_serve.Gateway.BrowserSessions.SingleWriter.{promote_alone}
use parallel_workspace_serve.Gateway.Handover.{
  StoreError, Client, Answers, Resolved, workspace, error, handover, take_over,
  refuse_if_writable_client_present, has_writable,
}

-- No client of the list may write.
abbrev pub AllReadOnly : List Client → Type 0
AllReadOnly [] = Unit
AllReadOnly (c ∷ clients) = (c.writable ≡ false) × AllReadOnly clients

-- What a caller is told with 200: the whole chain of answers that led to it, and who may write.
pub record Granted (a : Answers) (b after : Sessions) : Type 0 where
  pub ws : String
  pub id : String
  pub resolved : a.resolve_host ≡ workspace ws
  pub asked : a.session_id ≡ some id
  pub told : a.declared ≡ some 204
  pub clients : List Client
  pub reported : a.clients ≡ some (200, some clients)
  pub unclaimed : AllReadOnly clients
  pub others_kept :
      (w j : String) → writable w j after ≡ (if is_at ws id w j then true else writable w j b)
  pub alone : (j : String) → writable ws j after ≡ true → j ≡ id

take_over-granted :
    (a : Answers) (ws id : String) (b : Sessions)
    → (take_over a ws id (λ c. c) b).0 ≡ 200
    → (a.declared ≡ some 204)
      × ((promote ws id b).1 ≡ true)
      × ((take_over a ws id (λ c. c) b).1 ≡ (promote ws id b).0)
unfolding take_over
take_over-granted a ws id b h = ground arith

Resolved-cases :
    (r : Resolved) → ((ws : String) × (r ≡ workspace ws)) ⊎ ((e : StoreError) × (r ≡ error e))
Resolved-cases (workspace ws) = inl (ws, refl)
Resolved-cases (error e) = inr (e, refl)

handover-inv :
    (a : Answers) (others : Sessions → Sessions) (b : Sessions)
    → (handover a others b).0 ≡ 200
    → (ws : String) × (id : String) × (a.resolve_host ≡ workspace ws)
      × (a.session_id ≡ some id)
      × (refuse_if_writable_client_present a.clients ≡ false)
      × (handover a others b ≡ take_over a ws id others b)
unfolding handover
handover-inv a others b h = elim (Resolved-cases a.resolve_host) [
  | inl (ws, r) ↦ elim (Option-cases a.session_id) [
    | inl none_sent ↦ ground arith
    | inr (id, sent) ↦ (ws, id, r, sent, ground arith, ground arith)
  ]
  | inr (e, r) ↦ ground arith
]

none_writable : (clients : List Client) → has_writable clients ≡ false → AllReadOnly clients
none_writable [] h = tt
none_writable (c ∷ clients) h = (ground arith, none_writable clients (ground arith))

-- The supervisor answered with its clients, and none of them may write.
not_refused :
    (o : Option (ℕ × Option (List Client)))
    → refuse_if_writable_client_present o ≡ false
    → (clients : List Client) × (o ≡ some (200, some clients)) × AllReadOnly clients
unfolding refuse_if_writable_client_present
not_refused none h = absurd (ground arith)
not_refused (some (status, none)) h = absurd (ground arith)
not_refused (some (status, some clients)) h =
    let e : status ≡ 200 = ground arith in
    (clients, ap (λ (n : ℕ). some (n, some clients)) e, none_writable clients (ground arith))

promoted_alone :
    (ws id j : String) (b : Sessions)
    → (promote ws id b).1 ≡ true
    → writable ws j (promote ws id b).0 ≡ true
    → j ≡ id
promoted_alone ws id j b ok k =
    ground (arith, writable-promote ws id ws j b, promote_alone ws id j b, eq_iff id j, eq_refl ws)

-- A handover that answers 200 while nothing else runs: the host named a workspace and the body a
-- session, the supervisor answered with 200 and a list of clients of which none may write, and
-- recorded the takeover with 204; that session and no other of its workspace may write, and no other session changed.
pub handover-Granted :
    (a : Answers) (b : Sessions)
    → (handover a (λ c. c) b).0 ≡ 200
    → Granted a b (handover a (λ c. c) b).1
handover-Granted a b h =
    let (ws, id, resolved, asked, unclaimed, e) = handover-inv a (λ c. c) b h in
    let (clients, reported, read_only) = not_refused a.clients unclaimed in
    let (told, ok, after) =
      take_over-granted a ws id b (sym (ap (λ (r : ℕ × Sessions). r.0) e) ∙ h) in
    let same : (handover a (λ c. c) b).1 ≡ (promote ws id b).0 =
      ap (λ (r : ℕ × Sessions). r.1) e ∙ after in
    record {
      ws = ws;
      id = id;
      resolved = resolved;
      asked = asked;
      told = told;
      clients = clients;
      reported = reported;
      unclaimed = read_only;
      others_kept = λ w j. rw same (ground (arith, writable-promote ws id w j b));
      alone = λ j k. promoted_alone ws id j b ok (rw same at k);
    }

promote_unknown :
    (ws id : String) (b : Sessions) → (promote ws id b).2 ≡ false → (promote ws id b).1 ≡ false
unfolding promote
promote_unknown ws id b h = ground arith

take_over_refused :
    (a : Answers) (ws id w j : String) (b : Sessions)
    → (take_over a ws id (λ c. c) b).0 ≢ 200
    → writable w j (take_over a ws id (λ c. c) b).1 ≡ true
    → writable w j b ≡ true
unfolding take_over
take_over_refused a ws id w j b h k = elim (Bool-cases (promote ws id b).2) [
  | inl known ↦
      ground (arith, writable-promote ws id w j b, writable-release ws id w j (promote ws id b).0)
  | inr unknown ↦
      let none_promoted = promote_unknown ws id b unknown in
      ground (arith, writable-promote ws id w j b)
]

-- A handover that answers anything but 200 while nothing else runs gives no session write access:
-- who may write afterwards could write before.
pub handover_refused :
    (a : Answers) (w j : String) (b : Sessions)
    → (handover a (λ c. c) b).0 ≢ 200
    → writable w j (handover a (λ c. c) b).1 ≡ true
    → writable w j b ≡ true
unfolding handover
handover_refused a w j b h k = grind (arith, λ (ws id : String). take_over_refused a ws id w j b)
