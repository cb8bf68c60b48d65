-- ===== src/Gateway/Bridge/Complete.antt =====
-- handler.go and session.go together: a connection that does not fail catches up with the log.
use mathlib.Core.List.{append-nil}
use parallel_workspace_serve.Prelude.{
  ℕ, Bool, true, false, List, [], ◌∷◌, ◌++◌, none, some, length, drop, ◌≡◌, refl, sym, ap, ◌∙◌,
  if◌then◌else◌, map, all, arith,
}
use parallel_workspace_serve.Supervisor.Evacuation.DirtyPaths.{Bytes}
use parallel_workspace_serve.Supervisor.Session.Terminal.{
  LogFile, missing, unreadable, log, chunk_of, serve_output,
}
use parallel_workspace_serve.Supervisor.Session.Terminal as Terminal
use parallel_workspace_serve.Gateway.Bridge.{
  read_output, Poll, Sent, write_chunks, write_round, round, append_sent, bridge_output, frames,
}
use parallel_workspace_serve.Gateway.Bridge.Delivery.{
  concat, drop-add, AllBegin, bridge_output-Delivered,
}

abbrev pub is_readable : LogFile → Bool
is_readable missing = true
is_readable unreadable = false
is_readable (log written) = true

-- A round that meets no failure, on a connection that stays.
pub record IsOpen (p : Poll) : Type 0 where
  pub answers : p.answered ≡ true
  pub reads : is_readable p.file ≡ true
  pub accepts : p.writes ≡ true
  pub stays : p.ended ≡ false

abbrev pub AllOpen : List Poll → Type 0
AllOpen [] = Unit
AllOpen (p ∷ polls) = IsOpen p × AllOpen polls

goes_on_after :
    (since : ℕ) (read : Bytes) → (write_chunks true since (chunk_of since read)).goes_on ≡ true
unfolding write_chunks
goes_on_after since [] = refl
goes_on_after since (c ∷ read) = refl

abbrev asked : Bool → LogFile → Bool → ℕ → Sent
asked answered file writes since =
    write_round writes since
      (read_output (if answered then some (serve_output file since) else none))

asked_open :
    (file : LogFile) (since : ℕ)
    → is_readable file ≡ true
    → (asked true file true since).goes_on ≡ true
unfolding write_round read_output serve_output Terminal.read_output write_chunks
asked_open missing since e = refl
asked_open unreadable since e = cc
asked_open (log written) since e = goes_on_after since (drop since written)

round_open : (p : Poll) (since : ℕ) → IsOpen p → (round p since).goes_on ≡ true
unfolding round
round_open p since o =
    ap (λ a. (asked a p.file p.writes since).goes_on) o.answers
    ∙ (ap (λ w. (asked true p.file w since).goes_on) o.accepts ∙ asked_open p.file since o.reads)

drop_all : (l : Bytes) → drop (length l) l ≡ []
drop_all [] = refl
drop_all (c ∷ l) = drop_all l

caught_up :
    (since : ℕ) (whole read : Bytes)
    → drop since whole ≡ read
    → drop (write_chunks true since (chunk_of since read)).since whole ≡ []
unfolding write_chunks
caught_up since whole [] e = e
caught_up since whole (c ∷ read) e =
    drop-add since (length (c ∷ read)) whole
    ∙ (ap (drop (length (c ∷ read))) e ∙ drop_all (c ∷ read))

served_caught_up :
    (since : ℕ) (whole : Bytes) → drop (asked true (log whole) true since).since whole ≡ []
unfolding write_round read_output serve_output Terminal.read_output
served_caught_up since whole = caught_up since whole (drop since whole) refl

round_caught_up :
    (p : Poll) (since : ℕ) (whole : Bytes)
    → IsOpen p
    → p.file ≡ log whole
    → drop (round p since).since whole ≡ []
unfolding round
round_caught_up p since whole o e =
    ap (λ a. drop (asked a p.file p.writes since).since whole) o.answers
    ∙ (ap (λ w. drop (asked true p.file w since).since whole) o.accepts
        ∙ (ap (λ f. drop (asked true f true since).since whole) e ∙ served_caught_up since whole))

one_more :
    (p : Poll) (since : ℕ) (rest : List Poll)
    → IsOpen p
    → bridge_output since (p ∷ rest)
      ≡ append_sent (round p since) (bridge_output (round p since).since rest)
unfolding bridge_output
one_more p since rest o = rw (round_open p since o) (rw o.stays refl)

end_caught_up :
    (whole : Bytes) (since : ℕ) (polls : List Poll) (last : Poll)
    → AllOpen polls
    → IsOpen last
    → last.file ≡ log whole
    → drop (bridge_output since (polls ++ last ∷ [])).since whole ≡ []
unfolding bridge_output
end_caught_up whole since [] last a o e =
    ap (λ (x : Sent). drop x.since whole) (one_more last since [] o)
    ∙ round_caught_up last since whole o e
end_caught_up whole since (p ∷ polls) last a o e =
    ap (λ (x : Sent). drop x.since whole) (one_more p since (polls ++ last ∷ []) a.0)
    ∙ end_caught_up whole (round p since).since polls last a.1 o e

-- encoding/json keeps a text that is valid UTF-8.
abbrev pub KeepsValid : (Bytes → Bool) → (Bytes → Bytes) → Type 0
KeepsValid valid through_json = (text : Bytes) → valid text ≡ true → through_json text ≡ text

frames_kept :
    (valid : Bytes → Bool) (through_json : Bytes → Bytes) (pieces : List Bytes)
    → KeepsValid valid through_json
    → all valid pieces ≡ true
    → concat (map through_json pieces) ≡ concat pieces
frames_kept valid through_json [] k v = refl
frames_kept valid through_json (piece ∷ pieces) k v =
    rw (k piece (ground arith), frames_kept valid through_json pieces k (ground arith)) refl

-- On a connection that stays, where each poll is answered, each read of the log succeeds and finds
-- a beginning of what is written in all, and each write succeeds: what has gone down the socket
-- once a poll finds the whole log is exactly what it holds behind the first offset, if each of the
-- texts read is valid UTF-8 and encoding/json keeps such a text.
pub bridge_output_complete :
    (valid : Bytes → Bool) (through_json : Bytes → Bytes) (whole : Bytes) (since : ℕ)
    (polls : List Poll) (last : Poll)
    → KeepsValid valid through_json
    → AllOpen polls
    → IsOpen last
    → last.file ≡ log whole
    → AllBegin whole (polls ++ last ∷ [])
    → all valid (bridge_output since (polls ++ last ∷ [])).pieces ≡ true
    → concat (frames through_json (bridge_output since (polls ++ last ∷ []))) ≡ drop since whole
bridge_output_complete valid through_json whole since polls last keeps a o e b v =
    let sent = bridge_output since (polls ++ last ∷ []) in
    frames_kept valid through_json sent.pieces keeps v
    ∙ (sym (append-nil (concat sent.pieces))
        ∙ (ap (λ (r : Bytes). concat sent.pieces ++ r)
              (sym (end_caught_up whole since polls last a o e))
            ∙ bridge_output-Delivered whole since (polls ++ last ∷ []) b))
