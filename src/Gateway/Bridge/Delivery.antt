-- ===== src/Gateway/Bridge/Delivery.antt =====
-- handler.go and session.go together: what a browser gets of the output log.
use mathlib.Core.List.{append_assoc, append-nil}
use parallel_workspace_serve.Prelude.{
  ℕ, zero, suc, ◌+◌, Bool, true, false, not, ◌&&◌, List, [], ◌∷◌, ◌++◌, none, some, length, drop,
  ◌≡◌, refl, sym, ap, ◌∙◌, arith, Bool-cases, inl, inr, if◌then◌else◌,
}
use parallel_workspace_serve.Supervisor.Evacuation.DirtyPaths.{Bytes}
use parallel_workspace_serve.Supervisor.Session.Terminal.{
  OutputChunk, LogFile, missing, unreadable, log, chunk_of, serve_output,
}
use parallel_workspace_serve.Supervisor.Session.Terminal as Terminal
use parallel_workspace_serve.Gateway.Bridge.{
  read_output, Poll, Sent, write_chunks, write_round, round, append_sent, bridge_output,
}

abbrev pub concat : List Bytes → Bytes
concat [] = []
concat (p ∷ pieces) = p ++ concat pieces

concat-append : (ps qs : List Bytes) → concat (ps ++ qs) ≡ concat ps ++ concat qs
concat-append [] qs = refl
concat-append (p ∷ ps) qs = simp (concat-append ps qs, append_assoc)

drop-append_some :
    (n : ℕ) (w rest : Bytes) (c : ℕ) (d : Bytes)
    → drop n w ≡ c ∷ d
    → drop n (w ++ rest) ≡ c ∷ (d ++ rest)
drop-append_some zero w rest c d e = ap (λ (l : Bytes). l ++ rest) e
drop-append_some (suc n) [] rest c d e = cc
drop-append_some (suc n) (x ∷ w) rest c d e = drop-append_some n w rest c d e

drop-nil : (n : ℕ) → drop {A = ℕ} n [] ≡ []
drop-nil zero = refl
drop-nil (suc n) = refl

pub drop-add : (m n : ℕ) (l : Bytes) → drop (m + n) l ≡ drop n (drop m l)
drop-add zero n l = let e : zero + n ≡ n = omega arith in ap (λ k. drop k l) e
drop-add (suc m) n [] =
    let e : suc m + n ≡ suc (m + n) = omega arith in
    ap (λ k. drop {A = ℕ} k []) e ∙ sym (drop-nil n)
drop-add (suc m) n (x ∷ l) =
    let e : suc m + n ≡ suc (m + n) = omega arith in ap (λ k. drop k (x ∷ l)) e ∙ drop-add m n l

drop-length-append : (d rest : Bytes) → drop (length d) (d ++ rest) ≡ rest
drop-length-append [] rest = refl
drop-length-append (c ∷ d) rest = drop-length-append d rest

-- The log as it is read is a beginning of the whole log.
abbrev pub Begins : Bytes → LogFile → Type 0
Begins whole missing = Unit
Begins whole unreadable = Unit
Begins whole (log written) = (rest : Bytes) × (written ++ rest ≡ whole)

abbrev pub AllBegin : Bytes → List Poll → Type 0
AllBegin whole [] = Unit
AllBegin whole (p ∷ polls) = Begins whole p.file × AllBegin whole polls

-- What was written and what lies behind the offset make up what lay behind the offset before.
abbrev pub Delivered : Bytes → ℕ → Sent → Type 0
Delivered whole since sent = concat sent.pieces ++ drop sent.since whole ≡ drop since whole

chunk-Delivered :
    (whole : Bytes) (since : ℕ) (written rest data_read : Bytes) (writes : Bool)
    → written ++ rest ≡ whole
    → drop since written ≡ data_read
    → Delivered whole since (write_chunks writes since (chunk_of since data_read))
unfolding write_chunks
chunk-Delivered whole since written rest [] writes e d = refl
chunk-Delivered whole since written rest (c ∷ l) false e d = refl
chunk-Delivered whole since written rest (c ∷ l) true e d =
    let behind : drop since whole ≡ c ∷ (l ++ rest) =
      ap (drop since) (sym e) ∙ drop-append_some since written rest c l d in
    let after : drop (since + length (c ∷ l)) whole ≡ rest =
      drop-add since (length (c ∷ l)) whole
      ∙ (ap (drop (length (c ∷ l))) behind ∙ drop-length-append (c ∷ l) rest) in
    simp (append-nil, after, behind)

round-Delivered :
    (whole : Bytes) (since : ℕ) (p : Poll)
    → Begins whole p.file
    → Delivered whole since (round p since)
unfolding round write_round read_output serve_output Terminal.read_output
round-Delivered whole since p b = go p.answered p.file p.writes b
  where
    go :
        (answered : Bool) (file : LogFile) (writes : Bool)
        → Begins whole file
        → Delivered whole since (
            write_round writes since
              (read_output (if answered then some (serve_output file since) else none)))
    go false file writes b = refl
    go true missing writes b = refl
    go true unreadable writes b = refl
    go true (log written) writes (rest, e) =
        chunk-Delivered whole since written rest (drop since written) writes e refl

append-Delivered :
    (whole : Bytes) (since : ℕ) (a b : Sent)
    → Delivered whole since a
    → Delivered whole a.since b
    → Delivered whole since (append_sent a b)
append-Delivered whole since a b h k =
    let split = concat-append a.pieces b.pieces in simp (split, append_assoc, k, h)

-- While the browser is connected, each read of the log finding a beginning of what is written in
-- all, the texts that go down the socket are together exactly what the log holds from the first
-- offset up to the last: no byte is lost, repeated or out of order. This is so however the polls
-- fail, also where the connection breaks off in the middle. The texts are those of the chunks,
-- before their JSON.
pub bridge_output-Delivered :
    (whole : Bytes) (since : ℕ) (polls : List Poll)
    → AllBegin whole polls
    → Delivered whole since (bridge_output since polls)
unfolding bridge_output
bridge_output-Delivered whole since [] b = refl
bridge_output-Delivered whole since (p ∷ polls) b =
    let first = round-Delivered whole since p b.0 in
    let later = bridge_output-Delivered whole (round p since).since polls b.1 in
    elim (Bool-cases ((round p since).goes_on && not p.ended)) [
      | inl on ↦ rw on (
          append-Delivered whole since (round p since) (bridge_output (round p since).since polls)
            first later)
      | inr off ↦ rw off first
    ]
