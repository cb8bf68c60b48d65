-- ===== src/Supervisor/Evacuation/Agent/Stored.antt =====
-- snapshot.go and s3.go: what a successful `Evacuate` has stored.
use parallel_workspace_serve.Prelude.{
  ℕ, ◌+◌, Bool, true, false, not, some, [], ◌∷◌, ◌++◌, leb, ◌≡◌, refl, ap, ◌∙◌, arith,
  if◌then◌else◌,
}
use parallel_workspace_serve.Prelude.Outcome.{Outcome, ok, err, ◌>>=◌, >>=-eq-ok}
use parallel_workspace_serve.Supervisor.Evacuation.DirtyPaths.{Bytes}
use parallel_workspace_serve.Supervisor.Evacuation.FilePaths.{bytes_eq}
use parallel_workspace_serve.Supervisor.Evacuation.ObjectStore.{
  Objects, put, get, Response, no_answer, response, broken_off, Server, put_answered, put_file,
  get_answered, get_file,
}
use parallel_workspace_serve.Supervisor.Evacuation.Git.{
  World, Tools, Agent, Snapshot, bundle_key, dirty_archive_key, key_prefix, on_objects,
}
use parallel_workspace_serve.Supervisor.Evacuation.Agent.{put_object, snapshot, publish}

abbrev pub is_accepted : Response → Bool
is_accepted no_answer = false
is_accepted (response code body) = not (leb 300 code)
is_accepted (broken_off code) = not (leb 300 code)

-- A store that holds what it has accepted under its key, and gives back what it holds.
pub record IsStore (server : Server) : Type 0 where
  pub put_stores :
      (key body q : Bytes) (objects : Objects)
      → is_accepted (server (put key body) objects).0 ≡ true
      → (server (put key body) objects).1 q ≡ (if bytes_eq q key then some body else objects q)
  pub get_gives :
      (key body : Bytes) (objects : Objects)
      → objects key ≡ some body
      → server (get key) objects ≡ (response 200 body, objects)

put_answered-stores :
    (r : Response) (after before objects : Objects) (body : Bytes) (size : ℕ)
    → put_answered (r, after) body before ≡ ok size objects
    → (is_accepted r ≡ true) × (objects ≡ after)
unfolding put_answered
put_answered-stores no_answer after before objects body size h = cc
put_answered-stores (response code text) after before objects body size h =
    (ground arith, ground arith)
put_answered-stores (broken_off code) after before objects body size h =
    (ground arith, ground arith)

put_file-stores :
    (server : Server) (key body q : Bytes) (before objects : Objects) (size : ℕ)
    → IsStore server
    → put_file server key body before ≡ ok size objects
    → objects q ≡ (if bytes_eq q key then some body else before q)
unfolding put_file
put_file-stores server key body q before objects size laws h =
    let (accepted, same) =
      put_answered-stores (server (put key body) before).0 (server (put key body) before).1 before
        objects body size h in
    ap (λ (o : Objects). o q) same ∙ laws.put_stores key body q before accepted

pub get_file-gives :
    (server : Server) (key body : Bytes) (objects : Objects)
    → IsStore server
    → objects key ≡ some body
    → get_file server key objects ≡ ok body objects
unfolding get_file get_answered
get_file-gives server key body objects laws held = rw (laws.get_gives key body objects held) refl

bytes_eq-append : (p s t : Bytes) → bytes_eq (p ++ s) (p ++ t) ≡ bytes_eq s t
unfolding bytes_eq
bytes_eq-append [] s t = refl
bytes_eq-append (c ∷ p) s t = ground (arith, bytes_eq-append p s t)

pub bytes_eq_refl : (s : Bytes) → bytes_eq s s ≡ true
unfolding bytes_eq
bytes_eq_refl [] = refl
bytes_eq_refl (c ∷ s) = ground (arith, bytes_eq_refl s)

keys_apart : (id : Bytes) → bytes_eq (bundle_key id) (dirty_archive_key id) ≡ false
unfolding bundle_key dirty_archive_key bytes_eq
keys_apart id = bytes_eq-append (key_prefix id) _ _

module _ {Repo : Type 0} (tools : Tools Repo) where
  on_objects-ok :
      {A : Type 0} (w u : World Repo) (o : Outcome Objects A) (a : A)
      → on_objects w o ≡ ok a u
      → (objects : Objects) × (o ≡ ok a objects)
        × (u.objects ≡ objects)
        × (u.files ≡ w.files)
        × (u.repo ≡ w.repo)
  on_objects-ok w u (ok b objects) a h = (objects, cc, cc, cc, cc)
  on_objects-ok w u (err e objects) a h = cc

  module _ (agent : Agent) where
    put_object-stores :
        (key body q : Bytes) (size : ℕ) (w u : World Repo)
        → IsStore tools.server
        → put_object tools agent key body w ≡ ok size u
        → (u.objects q ≡ (if bytes_eq q key then some body else w.objects q))
          × (u.files ≡ w.files)
          × (u.repo ≡ w.repo)
    unfolding put_object
    put_object-stores key body q size w u laws h =
        let (objects, done, held, files, repo) =
          on_objects-ok w u (put_file tools.server key body w.objects) size h in
        (
          ap (λ (o : Objects). o q) held
              ∙ put_file-stores tools.server key body q w.objects objects size laws done,
          files,
          repo,
        )

    pub publish-stores :
        (branch head bundle archive : Bytes) (s : Snapshot) (w u : World Repo)
        → IsStore tools.server
        → publish tools agent branch head bundle archive w ≡ ok s u
        → (s.branch ≡ branch)
          × (u.objects (bundle_key agent.workspace_id) ≡ some bundle)
          × (u.objects (dirty_archive_key agent.workspace_id) ≡ some archive)
    unfolding publish
    publish-stores branch head bundle archive s w u laws h =
        let b = bundle_key agent.workspace_id in
        let d = dirty_archive_key agent.workspace_id in
        let (n, v, first, rest) =
          >>=-eq-ok (put_object tools agent b bundle)
            (λ n.
              put_object tools agent d archive >>= λ m. snapshot tools agent branch head (n + m))
            w h in
        let (m, x, second, last) =
          >>=-eq-ok (put_object tools agent d archive)
            (λ m. snapshot tools agent branch head (n + m)) v rest in
        let end : u ≡ x = cc in
        let at_b = (put_object-stores b bundle b n w v laws first).0 in
        let past_d = (put_object-stores d archive b m v x laws second).0 in
        let at_d = (put_object-stores d archive d m v x laws second).0 in
        (
          cc,
          ap (λ y. y.objects b) end
              ∙ (past_d ∙ (rw (keys_apart agent.workspace_id) (at_b ∙ rw (bytes_eq_refl b) refl))),
          ap (λ y. y.objects d) end ∙ (at_d ∙ rw (bytes_eq_refl d) refl),
        )
