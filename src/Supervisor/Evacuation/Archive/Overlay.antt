-- ===== src/Supervisor/Evacuation/Archive/Overlay.antt =====
-- snapshot.go and restore.go: what is extracted is what was archived.
use parallel_workspace_serve.Supervisor.Evacuation.Archive.Clearance.{
  is_above, Clear, Layable, Covered, bytes_eq_refl, write-Layable,
}
use parallel_workspace_serve.Prelude.{
  ℕ, ◌%◌, true, Option, none, some, List, [], ◌∷◌, any, ◌≡◌, ◌≢◌, ◌⊎◌, inl, inr, refl, ◌∙◌, ap,
  arith, Bool-cases, if◌then◌else◌, ◌≤◌, false, sym, subst,
}
use parallel_workspace_serve.Prelude.Outcome.{ok, ◌>>=◌, ◌>>◌, >>=-ok, >>=-eq-ok}
use parallel_workspace_serve.Supervisor.Evacuation.DirtyPaths.{Bytes}
use parallel_workspace_serve.Supervisor.Evacuation.FilePaths.{join_path, is_inside, bytes_eq}
use parallel_workspace_serve.Supervisor.Evacuation.FilePaths.Below.{bytes_eq→eq}
use parallel_workspace_serve.Supervisor.Evacuation.Archive.{
  Node, file, other, Files, content, body_of, TarEntry, Reading, end_of_archive, entry, System,
  add_node, add_file, add_files, with_more, parent_dir, write_target, write_if, extract_entry,
  extract_entries,
}

-- The reading of a whole archive.
abbrev pub read_whole : List TarEntry → Reading
read_whole [] = end_of_archive
read_whole (e ∷ es) = entry e (read_whole es)

-- An operating system that makes the directories of a file and writes it where the way is clear,
-- with no symbolic link on it; and archives that are read back as they were written as far as they
-- are not cut off.
pub record IsHealthy (sys : System) : Type 0 where
  pub makes :
      (path : Bytes) (files : Files)
      → Clear path files
      → (g : Files) × (sys.mkdir_all (parent_dir path) files ≡ ok tt g)
        × ((q : Bytes) → content g q ≡ content files q)
        × ((q : Bytes) → is_above q path ≡ false → g q ≡ files q)
  pub opens :
      (path : Bytes) (mode : ℕ) (files : Files)
      → Clear path files
      → (g : Files) × (sys.open_file path mode files ≡ ok tt g)
        × ((q : Bytes) → content g q ≡ (if bytes_eq q path then some [] else content files q))
        × ((q : Bytes) → q ≢ path → g q ≡ files q)
  pub copies :
      (path old body : Bytes) (files : Files)
      → content files path ≡ some old
      → (g : Files) × (sys.copy path body files ≡ ok tt g)
        × ((q : Bytes) → content g q ≡ (if bytes_eq q path then some body else content files q))
        × ((q : Bytes) → q ≢ path → g q ≡ files q)
  pub packs :
      (limit : ℕ) (entries : List TarEntry)
      → sys.tar_size entries ≤ limit
      → sys.unpack limit (sys.pack entries) ≡ some (read_whole entries)
  pub packs_some : (entries : List TarEntry) → sys.pack entries ≢ []

abbrev pub or_else : Option Bytes → Option Bytes → Option Bytes
or_else none b = b
or_else (some a) b = some a

-- The content of a path where the files of these names are laid over others.
abbrev pub overlaid : Bytes → List Bytes → Files → Files → Bytes → Option Bytes
overlaid root names over base q =
    if any (λ name. bytes_eq q (join_path root name)) names
    then or_else (content over q) (content base q)
    else content base q

abbrev pub AllInside : Bytes → Bytes → List Bytes → Type 0
AllInside dir root [] = Unit
AllInside dir root (name ∷ names) =
    (is_inside dir (join_path root name) ≡ true) × AllInside dir root names

module _ (sys : System) where
  -- What `add_file` adds of one name, by what stands at its path.
  abbrev Added : Bytes → Bytes → Option Node → List TarEntry → Type 0
  Added root name node entries =
      ((entries ≡ []) × (body_of node ≡ none))
      ⊎ ((e : TarEntry) × (entries ≡ e ∷ [])
          × (e.name ≡ name)
          × (e.is_regular ≡ true)
          × (body_of node ≡ some e.body))

  add_node-Added :
      {S : Type 0} (root name : Bytes) (node : Option Node) (full : Bytes) (s t : S)
      (entries : List TarEntry)
      → add_node sys node full name s ≡ ok entries t
      → (t ≡ s) × Added root name node entries
  unfolding add_node
  add_node-Added root name none full s t entries h = (cc, inl (cc, refl))
  add_node-Added root name (some other) full s t entries h = (cc, inl (cc, refl))
  add_node-Added root name (some (file mode body)) full s t entries h =
      elim (Bool-cases (sys.read_fails full)) [
        | inl fails ↦ absurd (ground arith)
        | inr reads ↦ (
          ground arith,
          inr (
            record { name = name; mode = mode; is_regular = true; body = body },
            ground arith,
            refl,
            refl,
            refl,
          ),
        )
      ]

  add_file-Added :
      {S : Type 0} (root name : Bytes) (files : Files) (s t : S) (entries : List TarEntry)
      → add_file sys files root name s ≡ ok entries t
      → (t ≡ s) × Added root name (files (join_path root name)) entries
  unfolding add_file
  add_file-Added root name files s t entries h =
      elim (Bool-cases (sys.lstat_fails (join_path root name))) [
        | inl fails ↦ absurd (ground arith)
        | inr there ↦
            add_node-Added root name (files (join_path root name)) (join_path root name) s t entries
              (rw there at h)
      ]

  -- Collecting the entries changes nothing.
  pub add_files_same :
      {S : Type 0} (root : Bytes) (names : List Bytes) (files : Files) (s t : S)
      (entries : List TarEntry)
      → add_files sys files root names s ≡ ok entries t
      → t ≡ s
  unfolding add_files
  add_files_same root [] files s t entries h = cc
  add_files_same root (name ∷ names) files s t entries h =
      let (first, u, added, more) =
        >>=-eq-ok (add_file sys files root name)
          (λ es. add_files sys files root names >>= with_more es) s h in
      let (rest, v, added_rest, joined) =
        >>=-eq-ok (add_files sys files root names) (with_more first) u more in
      let last : t ≡ v = cc in
      last
      ∙ (add_files_same root names files u v rest added_rest
          ∙ (add_file-Added root name files s u first added).0)

module _ (sys : System) (healthy : IsHealthy sys) (Target : Bytes → Type 0) where
  write_target_lem :
      (target body : Bytes) (mode : ℕ) (files : Files)
      → Clear target files
      → is_above target target ≡ false
      → (g : Files) × (write_target sys target mode body files ≡ ok tt g)
        × ((q : Bytes) → content g q ≡ (if bytes_eq q target then some body else content files q))
        × ((q : Bytes) → q ≢ target → is_above q target ≡ false → g q ≡ files q)
  unfolding write_target
  write_target_lem target body mode files clear itself =
      let (made, e, same, nodes) = healthy.makes target files clear in
      let still : Clear target made =
        ((λ q a. same q ∙ clear.0 q a), λ k. clear.1 (sym (nodes target itself) ∙ k)) in
      let (opened, f, emptied, nodes') = healthy.opens target (mode % 512) made still in
      let empty : content opened target ≡ some [] =
        ground (arith, emptied target, bytes_eq_refl target) in
      let (copied, k, written, nodes'') = healthy.copies target [] body opened empty in
      let first =
        >>=-ok (sys.mkdir_all (parent_dir target)) (λ _. sys.open_file target (mode % 512)) files
          e in
      (
        copied,
        >>=-ok (sys.mkdir_all (parent_dir target) >> sys.open_file target (mode % 512))
              (λ _. sys.copy target body) files (first ∙ f)
            ∙ k,
        (λ q. ground (arith, same q, emptied q, written q)),
        λ q differs beside. nodes'' q differs ∙ (nodes' q differs ∙ nodes q beside),
      )

  extract_one :
      (root : Bytes) (e : TarEntry) (r : Reading) (files : Files)
      → e.is_regular ≡ true
      → is_inside root (join_path root e.name) ≡ true
      → Layable Target files
      → Target (join_path root e.name)
      → (g : Files) × (extract_entries sys root (entry e r) files ≡ extract_entries sys root r g)
        × ((q : Bytes)
            → content g q
              ≡ (if bytes_eq q (join_path root e.name) then some e.body else content files q))
        × Layable Target g
  unfolding extract_entries extract_entry write_if
  extract_one root e r files regular inside lay is =
      let target = join_path root e.name in
      let (g, done, written, nodes) =
        write_target_lem target e.body e.mode files (lay.clear target is)
          (lay.apart target target is is) in
      let step : extract_entry sys root e files ≡ ok tt g = rw inside done in
      (
        g,
        rw regular (>>=-ok (extract_entry sys root e) (λ _. extract_entries sys root r) files step),
        written,
        write-Layable Target target e.body files g lay is written nodes,
      )

  pub extract-add_files :
      {S : Type 0} (root : Bytes) (names : List Bytes) (over base : Files) (s t : S)
      (entries : List TarEntry)
      → AllInside root root names
      → Covered Target root over names
      → Layable Target base
      → add_files sys over root names s ≡ ok entries t
      → (t ≡ s)
        × (g : Files) × (extract_entries sys root (read_whole entries) base ≡ ok tt g)
        × ((q : Bytes) → content g q ≡ overlaid root names over base q)
  unfolding add_files extract_entries
  extract-add_files root [] over base s t entries inside cover lay h =
      (cc, base, ground arith, λ q. refl)
  extract-add_files root (name ∷ names) over base s t entries inside cover lay h =
      let (first, u, added, more) =
        >>=-eq-ok (add_file sys over root name)
          (λ es. add_files sys over root names >>= with_more es) s h in
      let (rest, v, added_rest, joined) =
        >>=-eq-ok (add_files sys over root names) (with_more first) u more in
      let (same, kind) = add_file-Added sys root name over s u first added in
      elim kind [
        | inl (nothing, absent) ↦
            let (same', g, done, laid) =
              extract-add_files root names over base u v rest inside.1 cover.1 lay added_rest in
            let whole : entries ≡ rest = cc in
            (
              cc,
              g,
              ap (λ es. extract_entries sys root (read_whole es) base) whole ∙ done,
              λ q. ground (arith, laid q, bytes_eq→eq q (join_path root name)),
            )
        | inr (e, one, named, regular, body) ↦
            let is : Target (join_path root e.name) =
              subst (λ n. Target (join_path root n)) (sym named) (cover.0 e.body body) in
            let (base', step, written, lay') =
              extract_one root e (read_whole rest) base regular (rw named inside.0) lay is in
            let (same', g, done, laid) =
              extract-add_files root names over base' u v rest inside.1 cover.1 lay' added_rest in
            let whole : entries ≡ e ∷ rest = cc in
            (
              cc,
              g,
              ap (λ es. extract_entries sys root (read_whole es) base) whole ∙ (step ∙ done),
              λ q. ground (arith, laid q, written q, bytes_eq→eq q (join_path root name)),
            )
      ]
