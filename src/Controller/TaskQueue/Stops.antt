-- ===== src/Controller/TaskQueue/Stops.antt =====
-- taskqueue.go: what halts dispatch, how it is announced, and the switch of models.
use native.Mathlib.Numerals.{add-one}
use parallel_workspace_serve.Prelude.{
  ltb, Bool-cases, ap, ℕ, suc, ◌-◌, ◌≤◌, String, true, false, List, [], ◌∷◌, ◌++◌, some, inl, inr,
  ◌≢◌, str_eq, eq_refl, eq_iff, if◌then◌else◌, ◌≡◌, arith, refl, length, drop, length-drop, any,
}
use parallel_workspace_serve.Controller.Types.{TaskRequest, QuotaScope, Detail}
use parallel_workspace_serve.Prelude.Outcome.{ok, final}
use parallel_workspace_serve.Controller.Conditions.{ConditionOps}
use parallel_workspace_serve.Controller.Api.{Env}
use parallel_workspace_serve.Controller.TaskQueue.State.{
  Queue, QuotaHit, Settings, record_quota_hit,
}
use parallel_workspace_serve.Controller.TaskQueue.Pass.{
  detail_eq, stop, next_model, index_of, entry,
}

detail_eq_refl : (d : Detail) → detail_eq d d ≡ true
detail_eq_refl Detail.empty = refl
detail_eq_refl (Detail.submission_stopped k) = eq_refl k
detail_eq_refl (Detail.quota_window_spent QuotaScope.model) = refl
detail_eq_refl (Detail.quota_window_spent QuotaScope.session) = refl
detail_eq_refl (Detail.quota_window_spent QuotaScope.weekly) = refl

detail_eq_sound : (a b : Detail) → detail_eq a b ≡ true → a ≡ b
detail_eq_sound Detail.empty Detail.empty h = refl
detail_eq_sound (Detail.submission_stopped k) (Detail.submission_stopped l) h =
    ground (arith, eq_iff k l)
detail_eq_sound (Detail.quota_window_spent a) (Detail.quota_window_spent b) h = ground arith
detail_eq_sound _ _ h = cc

module _ (env : Env) (ops : ConditionOps) (r : Settings) where
  stop_again :
      (task : TaskRequest) (kind : String) (d : Detail) (q : Queue)
      → q.stopped ≡ d
      → stop env ops r task kind d q ≡ ok tt q
  unfolding stop
  stop_again task kind d q e = ground (arith, detail_eq_refl d)

  stopped-stop :
      (task : TaskRequest) (kind : String) (d : Detail) (q : Queue)
      → (final (stop env ops r task kind d q)).stopped ≡ d
  unfolding stop
  stopped-stop task kind d q = ground (arith, detail_eq_sound q.stopped d)

  -- A stop is announced once: a second stop with the same detail, for any task and kind, changes
  -- nothing and calls nothing.
  pub stop-stop :
      (task later : TaskRequest) (kind next_kind : String) (d : Detail) (q : Queue)
      → let halted = final (stop env ops r task kind d q) in
        stop env ops r later next_kind d halted ≡ ok tt halted
  stop-stop task later kind next_kind d q =
      stop_again later next_kind d (final (stop env ops r task kind d q))
        (stopped-stop task kind d q)

abbrev last_twenty : List QuotaHit → List QuotaHit
last_twenty hits = drop (length hits - 20) hits

window-last_twenty :
    (hits : List QuotaHit)
    → (if ltb 20 (length hits) then drop (length hits - 20) hits else hits) ≡ last_twenty hits
window-last_twenty hits = elim (Bool-cases (ltb 20 (length hits))) [
  | inl more ↦ rw more
  | inr few ↦
      rw few
        (let none_over : 0 ≡ length hits - 20 = ground arith in ap (λ n. drop n hits) none_over)
]

-- The history after a hit is that of the last twenty hits, the new one included; so it never holds
-- more than twenty.
pub record_quota_hit-last_twenty :
    (scope : QuotaScope) (at : ℕ) (q : Queue)
    → ((record_quota_hit scope at q).recent_quota_hits
        ≡ last_twenty (q.recent_quota_hits ++ record { scope = scope; at = at } ∷ []))
      × (length (record_quota_hit scope at q).recent_quota_hits ≤ 20)
unfolding record_quota_hit
record_quota_hit-last_twenty scope at q =
    let hits = q.recent_quota_hits ++ record { scope = scope; at = at } ∷ [] in
    (
      window-last_twenty hits,
      rw (window-last_twenty hits) (omega (arith, length-drop (length hits - 20) hits)),
    )

index_of-append :
    (pre post : List String) (m : String)
    → any (λ x. str_eq x m) pre ≡ false
    → index_of m (pre ++ m ∷ post) ≡ some (length pre)
unfolding index_of
index_of-append [] post m h = ground (arith, eq_refl m)
index_of-append (x ∷ pre) post m h = ground (arith, index_of-append pre post m)

entry-append :
    (pre post : List String) (m : String)
    → entry (pre ++ m ∷ post) (suc (length pre)) ≡ entry post 0
entry-append [] post m = refl
entry-append (x ∷ pre) post m = entry-append pre post m

-- The model after `m`, which the chain holds at the end of `pre` for the first time, is the entry
-- behind it, and none if `m` ends the chain.
pub next_model-append :
    (pre post : List String) (m : String)
    → m ≢ ""
    → any (λ x. str_eq x m) pre ≡ false
    → next_model (pre ++ m ∷ post) m ≡ entry post 0
unfolding next_model
next_model-append pre post m named first =
    ground (
      arith,
      eq_iff m "",
      index_of-append pre post m,
      add-one (length pre),
      entry-append pre post m,
    )
