-- ===== src/Supervisor/Session/Alone.antt =====
-- session.go: text reaches the session only from the client that may write.
use parallel_workspace_serve.Prelude.{
  String, true, false, List, [], ◌∷◌, ◌++◌, Option, none, some, ◌&&◌, not, str_eq, ◌≡◌, refl, sym,
  subst, arith, Bool-cases, inl, inr,
}
use parallel_workspace_serve.Supervisor.Session.Terminal.{
  SessionClient, Held, held_clients, list_clients, first_writable_other, Tmux, send_past, send_to,
  send_input_from,
}

-- Every client that may write is this one.
abbrev pub Alone : String → List SessionClient → Type 0
Alone client [] = Unit
Alone client (c ∷ clients) =
    ((c.writable && not (str_eq c.id client)) ≡ false) × Alone client clients

first_writable_other-Alone :
    (clients : List SessionClient) (client : String)
    → first_writable_other clients client ≡ none
    → Alone client clients
unfolding first_writable_other
first_writable_other-Alone [] client e = tt
first_writable_other-Alone (c ∷ clients) client e =
    elim (Bool-cases (c.writable && not (str_eq c.id client))) [
      | inl writes ↦ absurd (ground arith)
      | inr reads ↦ (reads, first_writable_other-Alone clients client (rw reads at e))
    ]

send_past-none : (t : Tmux) (o : Option SessionClient) → (send_past t o).0 ≡ true → o ≡ none
unfolding send_past
send_past-none t none e = refl
send_past-none t (some c) e = cc

send_to-Alone :
    (t : Tmux) (o : Option (List SessionClient)) (client : String)
    → (send_to t o client).0 ≡ true
    → (clients : List SessionClient) × (o ≡ some clients) × Alone client clients
unfolding send_to
send_to-Alone t none client e = cc
send_to-Alone t (some clients) client e = (
  clients,
  refl,
  first_writable_other-Alone clients client
      (send_past-none t (first_writable_other clients client) e),
)

listed-Alone :
    (t : Tmux) (held : Held) (client : String) (o : Option (List SessionClient))
    → (send_to t (list_clients o held) client).0 ≡ true
    → (attached : List SessionClient) × (o ≡ some attached)
      × Alone client (attached ++ held_clients held)
unfolding list_clients
listed-Alone t held client none e =
    let (clients, found, alone) = send_to-Alone t none client e in absurd (none_found clients found)
  where
    none_found : (clients : List SessionClient) → none ≡ some clients → ⊥
    none_found clients e = cc
listed-Alone t held client (some attached) e =
    let (clients, found, alone) = send_to-Alone t (some (attached ++ held_clients held)) client e in
    let same : attached ++ held_clients held ≡ clients = cc in
    (attached, refl, subst (Alone client) (sym same) alone)

-- Text is handed to tmux only if the session runs, the clients could be listed, and none of them,
-- attached to tmux or holding the session, may write other than the sender.
pub send_input_from-Alone :
    (t : Tmux) (held : Held) (client : String)
    → (send_input_from t held client).0 ≡ true
    → (t.has_session ≡ true)
      × (attached : List SessionClient) × (t.attached ≡ some attached)
      × Alone client (attached ++ held_clients held)
unfolding send_input_from
send_input_from-Alone t held client e = elim (Bool-cases t.has_session) [
  | inl runs ↦
      let (attached, found, alone) = listed-Alone t held client t.attached (rw runs at e) in
      (runs, attached, found, alone)
  | inr stopped ↦ absurd (ground arith)
]
