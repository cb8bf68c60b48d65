-- ===== src/Supervisor/Evacuation/Archive/Contained.antt =====
-- restore.go: no archive makes `extractArchive` write outside the working directory.
use parallel_workspace_serve.Prelude.{
  ℕ, ◌%◌, Bool, true, false, Option, none, some, ◌≡◌, ◌≢◌, inl, inr, refl, sym, ◌∙◌, subst,
  Bool-cases,
}
use parallel_workspace_serve.Prelude.Outcome.{Outcome, ok, err, M, final, ◌>>=◌, ◌>>◌}
use parallel_workspace_serve.Supervisor.Evacuation.DirtyPaths.{Bytes}
use parallel_workspace_serve.Supervisor.Evacuation.FilePaths.{join_path, abs_dir, is_inside}
use parallel_workspace_serve.Supervisor.Evacuation.FilePaths.Below.{
  Below, components, is_inside-Below,
}
use parallel_workspace_serve.Supervisor.Evacuation.Archive.{
  Files, content, TarEntry, Reading, end_of_archive, unreadable, entry, cut_short, System,
  parent_dir, write_target, extract_entry, extract_entries, extract_archive, write_if,
  extract_reading, max_archive_bytes,
}

-- What the calls leave alone, whether they succeed or fail, where no symbolic link is on the way:
-- a directory that is made is no file, and a file is opened and written under its own path.
pub record IsLocal (sys : System) : Type 0 where
  pub mkdir_all_keeps :
      (dir q : Bytes) (files : Files)
      → content (final (sys.mkdir_all dir files)) q ≡ content files q
  pub open_file_keeps :
      (path q : Bytes) (mode : ℕ) (files : Files)
      → q ≢ path
      → content (final (sys.open_file path mode files)) q ≡ content files q
  pub copy_keeps :
      (path q body : Bytes) (files : Files)
      → q ≢ path
      → content (final (sys.copy path body files)) q ≡ content files q

-- The content of one path as it was.
abbrev Kept : Bytes → Option Bytes → Files → Type 0
Kept q b files = content files q ≡ b

Kept->> :
    (q : Bytes) (b : Option Bytes) (m k : M Files (Unit {0})) (files : Files)
    → Kept q b (final (m files))
    → ((g : Files) → Kept q b g → Kept q b (final (k g)))
    → Kept q b (final ((m >> k) files))
Kept->> q b m k files now later = go (m files) now
  where
    go :
        (o : Outcome Files (Unit {0}))
        → Kept q b (final o)
        → Kept q b (final (◌>>=◌ (λ _. o) (λ _. k) files))
    go (ok u g) e = later g e
    go (err x g) e = e

module _ (sys : System) (laws : IsLocal sys) (q : Bytes) (b : Option Bytes) where
  write_target-Kept :
      (target body : Bytes) (mode : ℕ) (files : Files)
      → q ≢ target
      → Kept q b files
      → Kept q b (final (write_target sys target mode body files))
  unfolding write_target
  write_target-Kept target body mode files apart e =
      Kept->> q b (sys.mkdir_all (parent_dir target) >> sys.open_file target (mode % 512))
        (sys.copy target body) files
        (Kept->> q b (sys.mkdir_all (parent_dir target)) (sys.open_file target (mode % 512)) files
          (laws.mkdir_all_keeps (parent_dir target) q files ∙ e)
          (λ (g : Files) (k : Kept q b g). laws.open_file_keeps target q (mode % 512) g apart ∙ k))
        (λ (g : Files) (k : Kept q b g). laws.copy_keeps target q body g apart ∙ k)

  module _ (dir : Bytes) (outside : Below (components dir) q → ⊥) where
    write_if-Kept :
        (inside : Bool) (e : TarEntry) (name : Bytes) (files : Files)
        → is_inside (abs_dir dir) (join_path (abs_dir dir) name) ≡ inside
        → Kept q b files
        → Kept q b (final (write_if inside sys (join_path (abs_dir dir) name) e files))
    unfolding write_if
    write_if-Kept false e name files escapes k = k
    write_if-Kept true e name files inside k =
        write_target-Kept (join_path (abs_dir dir) name) e.body e.mode files
          (λ (same : q ≡ join_path (abs_dir dir) name). outside (
            subst (Below (components dir)) (sym same)
              (is_inside-Below dir (abs_dir dir) name inside)))
          k

    extract_entry-Kept :
        (e : TarEntry) (files : Files)
        → Kept q b files
        → Kept q b (final (extract_entry sys (abs_dir dir) e files))
    unfolding extract_entry
    extract_entry-Kept e files k =
        write_if-Kept (is_inside (abs_dir dir) (join_path (abs_dir dir) e.name)) e e.name files refl
          k

    extract_entries-Kept :
        (r : Reading) (files : Files)
        → Kept q b files
        → Kept q b (final (extract_entries sys (abs_dir dir) r files))
    unfolding extract_entries
    extract_entries-Kept end_of_archive files k = k
    extract_entries-Kept unreadable files k = k
    extract_entries-Kept (entry e r) files k = elim (Bool-cases e.is_regular) [
      | inl regular ↦ rw regular (
          Kept->> q b (extract_entry sys (abs_dir dir) e) (extract_entries sys (abs_dir dir) r)
            files (extract_entry-Kept e files k) (extract_entries-Kept r))
      | inr special ↦ rw special (extract_entries-Kept r files k)
    ]
    extract_entries-Kept (cut_short e) files k = elim (Bool-cases e.is_regular) [
      | inl regular ↦ rw regular (
          Kept->> q b (extract_entry sys (abs_dir dir) e) (err "unexpected EOF") files
            (extract_entry-Kept e files k) (λ (g : Files) (m : Kept q b g). m))
      | inr special ↦ rw special k
    ]

    extract_reading-Kept :
        (o : Option Reading) (files : Files)
        → Kept q b files
        → Kept q b (final (extract_reading o sys (abs_dir dir) files))
    unfolding extract_reading
    extract_reading-Kept none files k = k
    extract_reading-Kept (some r) files k = extract_entries-Kept r files k

-- Whatever the archive holds and however the extraction ends, every file whose path is neither the
-- working directory nor below it by named components has the content it had, provided that the
-- operating system writes a file under its own path.
pub extract_archive-outside :
    (sys : System) (working_dir archive q : Bytes) (files : Files)
    → IsLocal sys
    → (Below (components working_dir) q → ⊥)
    → content (final (extract_archive sys working_dir archive files)) q ≡ content files q
unfolding extract_archive
extract_archive-outside sys working_dir archive q files laws outside =
    extract_reading-Kept sys laws q (content files q) working_dir outside
      (sys.unpack max_archive_bytes archive) files refl
