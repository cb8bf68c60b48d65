-- ===== src/Supervisor/Evacuation/Agent/Sparing.antt =====
-- restore.go: `Restore` replays nothing over work that is only local.
use parallel_workspace_serve.Prelude.{
  true, false, Option, none, some, List, [], ◌∷◌, ◌≡◌, ◌≢◌, ◌⊎◌, inl, inr, refl, arith, not, ◌∙◌,
}
use parallel_workspace_serve.Prelude.Outcome.{ok, final, ◌>>=◌, >>=-ok}
use parallel_workspace_serve.Supervisor.Evacuation.DirtyPaths.{Bytes, dirty_paths}
use parallel_workspace_serve.Supervisor.Evacuation.ObjectStore.{Destination, validate}
use parallel_workspace_serve.Supervisor.Evacuation.Git.{
  Query, abbrev_ref_head, status, rev_list_count, World, Tools, Agent, past_remote, is_zero_text,
  answer, git, is_tracked,
}
use parallel_workspace_serve.Supervisor.Evacuation.Agent.{
  is_ahead, is_ahead_if, local_with, with_store, local_after_status, has_local_work, replay_unless,
  restore,
}

module _ {Repo : Type 0} (tools : Tools Repo) where
  -- A change that is not committed: git reports a path that would be captured.
  pub record Uncommitted (w : World Repo) : Type 0 where
    pub out : Bytes
    pub reported : answer tools status w ≡ some out
    pub changed : dirty_paths out ≢ []

  -- A commit that the remote-tracking branch does not have.
  pub record Unpushed (w : World Repo) : Type 0 where
    pub out : Bytes
    pub branch : Bytes
    pub count : Bytes
    pub reported : answer tools status w ≡ some out
    pub clean : dirty_paths out ≡ []
    pub on_branch : answer tools abbrev_ref_head w ≡ some branch
    pub tracked : is_tracked tools branch w ≡ true
    pub counted : answer tools (rev_list_count (past_remote branch)) w ≡ some count
    pub ahead : is_zero_text count ≡ false

  pub git-answer :
      (q : Query) (w : World Repo) {out : Bytes}
      → answer tools q w ≡ some out
      → git tools q w ≡ ok out w
  unfolding git
  git-answer q w e = rw e refl

  module _ (agent : Agent) (w : World Repo) where
    changed_local : (ps : List Bytes) → ps ≢ [] → local_with tools agent ps w ≡ ok true w
    unfolding local_with
    changed_local [] n = absurd (n refl)
    changed_local (p ∷ ps) n = refl

    Uncommitted-local : Uncommitted w → has_local_work tools agent w ≡ ok true w
    unfolding has_local_work local_after_status
    Uncommitted-local u =
        >>=-ok (git tools status) (local_after_status tools agent) w
          (git-answer status w u.reported)
        ∙ changed_local (dirty_paths u.out) u.changed

    tracked_ahead : (u : Unpushed w) → is_ahead tools agent u.branch w ≡ ok true w
    unfolding is_ahead is_ahead_if
    tracked_ahead u = rw u.tracked (
        >>=-ok (git tools (rev_list_count (past_remote u.branch)))
          (λ count. ok (not (is_zero_text count))) w
          (git-answer (rev_list_count (past_remote u.branch)) w u.counted)
        ∙ rw u.ahead refl)

    Unpushed-local : Unpushed w → has_local_work tools agent w ≡ ok true w
    unfolding has_local_work local_after_status local_with
    Unpushed-local u =
        >>=-ok (git tools status) (local_after_status tools agent) w
          (git-answer status w u.reported)
        ∙ (rw u.clean (
            >>=-ok (git tools abbrev_ref_head) (is_ahead tools agent) w
              (git-answer abbrev_ref_head w u.on_branch)
            ∙ tracked_ahead u))

    local_spared :
        (store : Option Destination)
        → has_local_work tools agent w ≡ ok true w
        → final (
            with_store tools agent store
              (has_local_work tools agent >>= replay_unless tools agent)
              w)
          ≡ w
    unfolding validate replay_unless
    local_spared none h = refl
    local_spared (some c) h =
        let spared = >>=-ok (has_local_work tools agent) (replay_unless tools agent) w h in
        ground arith

-- Where git reports a change that would be captured, or a commit that the remote-tracking branch
-- does not have, a restore changes nothing: not the repository, not a file, not an object.
pub restore_spares :
    {Repo : Type 0} (tools : Tools Repo) (agent : Agent) (w : World Repo)
    → Uncommitted tools w ⊎ Unpushed tools w
    → final (restore tools agent w) ≡ w
unfolding restore
restore_spares tools agent w (inl u) =
    local_spared tools agent w agent.store (Uncommitted-local tools agent w u)
restore_spares tools agent w (inr u) =
    local_spared tools agent w agent.store (Unpushed-local tools agent w u)
