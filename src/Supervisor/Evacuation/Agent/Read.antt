-- ===== src/Supervisor/Evacuation/Agent/Read.antt =====
-- snapshot.go: what a successful `Evacuate` has read of the state that it was called in.
use parallel_workspace_serve.Prelude.{
  Bool, true, false, Option, none, some, List, [], ◌≡◌, sym, ap, ◌∙◌, arith,
}
use parallel_workspace_serve.Prelude.Outcome.{ok, M, ◌>>=◌, >>=-eq-ok, >>=-eq-ok_reading}
use parallel_workspace_serve.Supervisor.Evacuation.DirtyPaths.{Bytes, dirty_paths}
use parallel_workspace_serve.Supervisor.Evacuation.Archive.{TarEntry, add_files}
use parallel_workspace_serve.Supervisor.Evacuation.Archive.Overlay.{add_files_same}
use parallel_workspace_serve.Supervisor.Evacuation.Git.{
  Query, abbrev_ref_head, rev_parse_head, status, rev_list_count, Stage, make_temp, open_archive,
  close_archive, empty_bundle, World, Tools, Agent, is_zero_text, or_fail, bundle_if, answer, git,
  stage, revs, bundle_counted, write_bundle,
}
use parallel_workspace_serve.Supervisor.Evacuation.Agent.{
  packed, archive_status, write_dirty_archive, collect, collect_archive, collect_files,
  collect_branch,
}

module _ {Repo : Type 0} (tools : Tools Repo) where
  or_fail-ok :
      {A : Type 0} (o : Option A) (w u : World Repo) (a : A)
      → or_fail o w ≡ ok a u
      → (u ≡ w) × (o ≡ some a)
  or_fail-ok none w u a e = cc
  or_fail-ok (some b) w u a e = (cc, cc)

  pub git-ok :
      (q : Query) (w u : World Repo) (out : Bytes)
      → git tools q w ≡ ok out u
      → (u ≡ w) × (answer tools q w ≡ some out)
  unfolding git
  git-ok q w u out h = or_fail-ok (answer tools q w) w u out h

  pub stage-ok : (s : Stage) (w u : World Repo) → stage tools s w ≡ ok tt u → u ≡ w
  unfolding stage
  stage-ok s w u h = ground arith

  bundle_if-ok :
      (is_empty : Bool) (range bundle : Bytes) (w u : World Repo)
      → bundle_if tools is_empty range w ≡ ok bundle u
      → u ≡ w
  unfolding bundle_if
  bundle_if-ok true range bundle w u h =
      let (t, v, staged, last) = >>=-eq-ok (stage tools empty_bundle) (λ _. ok []) w h in
      let same : u ≡ v = cc in same ∙ stage-ok empty_bundle w v staged
  bundle_if-ok false range bundle w u h = (or_fail-ok (tools.bundle_create range w) w u bundle h).0

  write_bundle-ok :
      (branch bundle : Bytes) (w u : World Repo) → write_bundle tools branch w ≡ ok bundle u → u ≡ w
  unfolding write_bundle bundle_counted
  write_bundle-ok branch bundle w u h =
      let (count, v, counted, made) =
        >>=-eq-ok (git tools (rev_list_count (revs tools branch w)))
          (bundle_counted tools (revs tools branch w)) w h in
      bundle_if-ok (is_zero_text count) (revs tools branch w) bundle v u made
      ∙ (git-ok (rev_list_count (revs tools branch w)) w v count counted).0

  module _ (agent : Agent) where
    -- What was archived: the entries of the names that git has reported.
    pub archive_status-ok :
        (out archive : Bytes) (w u : World Repo)
        → archive_status tools agent out w ≡ ok archive u
        → (entries : List TarEntry) × (archive ≡ tools.system.pack entries)
          × (add_files tools.system w.files agent.working_dir (dirty_paths out) w ≡ ok entries w)
          × (u ≡ w)
    unfolding archive_status
    archive_status-ok out archive w u h =
        let collects = add_files tools.system w.files agent.working_dir (dirty_paths out) in
        let closes : List TarEntry → M (World Repo) Bytes =
          λ entries. stage tools close_archive >>= λ _. packed tools agent entries in
        let (t, v, opened, rest) =
          >>=-eq-ok (stage tools open_archive) (λ _. collects >>= closes) w h in
        let (entries, x, added, closing) = >>=-eq-ok collects closes v rest in
        let (t', y, closed, packing) =
          >>=-eq-ok (stage tools close_archive) (λ _. packed tools agent entries) x closing in
        let before : v ≡ w = stage-ok open_archive w v opened in
        let between : x ≡ v =
          add_files_same tools.system agent.working_dir (dirty_paths out) w.files v x entries
            added in
        let after : y ≡ x = stage-ok close_archive x y closed in
        (entries, cc, ap collects (sym before) ∙ (added ∙ ap (ok entries) (between ∙ before)), cc)

    pub write_dirty_archive-ok :
        (archive : Bytes) (w u : World Repo)
        → write_dirty_archive tools agent w ≡ ok archive u
        → (out : Bytes) × (entries : List TarEntry) × (answer tools status w ≡ some out)
          × (archive ≡ tools.system.pack entries)
          × (add_files tools.system w.files agent.working_dir (dirty_paths out) w ≡ ok entries w)
          × (u ≡ w)
    unfolding write_dirty_archive
    write_dirty_archive-ok archive w u h =
        let (out, v, printed, archived) =
          >>=-eq-ok (git tools status) (archive_status tools agent) w h in
        let (same, reported) = git-ok status w v out printed in
        let (entries, packs, added, unchanged) =
          archive_status-ok out archive w u
            (rw (ap (archive_status tools agent out) (sym same)) archived) in
        (out, entries, reported, packs, added, unchanged)

    -- What `collect` has read of the state it was called in, and left as it was.
    pub record Collected (w : World Repo) (branch bundle archive : Bytes) : Type 0 where
      pub on_branch : answer tools abbrev_ref_head w ≡ some branch
      pub bundled : write_bundle tools branch w ≡ ok bundle w
      pub archived : write_dirty_archive tools agent w ≡ ok archive w

    collect_archive-ok :
        (b d p : Bytes) (w u : World Repo) (branch head bundle archive : Bytes)
        → collect_archive tools agent b d p w ≡ ok (branch, head, bundle, archive) u
        → (u ≡ w)
          × (b ≡ branch)
          × (d ≡ head)
          × (p ≡ bundle)
          × (write_dirty_archive tools agent w ≡ ok archive w)
    unfolding collect_archive
    collect_archive-ok b d p w u branch head bundle archive h =
        let (a, archived, last) =
          >>=-eq-ok_reading (write_dirty_archive tools agent) (λ a. ok (b, d, p, a)) w
            (λ x v e. (write_dirty_archive-ok x w v e).5) h in
        let same : a ≡ archive = cc in (cc, cc, cc, cc, rw (← same) archived)

    pub collect-Collected :
        (w u : World Repo) (branch head bundle archive : Bytes)
        → collect tools agent w ≡ ok (branch, head, bundle, archive) u
        → (u ≡ w) × Collected w branch bundle archive
    unfolding collect collect_branch collect_files
    collect-Collected w u branch head bundle archive h =
        let (b, on_branch, rest1) =
          >>=-eq-ok_reading (git tools abbrev_ref_head) (collect_branch tools agent) w
            (λ x v e. (git-ok abbrev_ref_head w v x e).0) h in
        let (d, at_head, rest2) =
          >>=-eq-ok_reading (git tools rev_parse_head) (collect_files tools agent b) w
            (λ x v e. (git-ok rev_parse_head w v x e).0) rest1 in
        let (t, staged, rest3) =
          >>=-eq-ok_reading (stage tools make_temp)
            (λ _. write_bundle tools b >>= collect_archive tools agent b d) w
            (λ x v e. stage-ok make_temp w v e) rest2 in
        let (p, bundled, rest4) =
          >>=-eq-ok_reading (write_bundle tools b) (collect_archive tools agent b d) w
            (λ x v e. write_bundle-ok b x w v e) rest3 in
        let (same, e, k, f, archived) =
          collect_archive-ok b d p w u branch head bundle archive rest4 in
        (
          same,
          record {
            on_branch = (git-ok abbrev_ref_head w w b on_branch).1 ∙ ap some e;
            bundled = ap (λ x. write_bundle tools x w) (sym e) ∙ (bundled ∙ ap (λ x. ok x w) f);
            archived = archived;
          },
        )
