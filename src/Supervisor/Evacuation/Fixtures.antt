-- ===== src/Supervisor/Evacuation/Fixtures.antt =====
-- A small operating system, archive format and object store for the examples. The format shifts
-- each byte by one and ends each field by a NUL.
use parallel_workspace_serve.Prelude.{
  ℕ, suc, ◌-◌, false, Option, none, some, List, [], ◌∷◌, ◌++◌, ◌==◌, ◌≡◌, ◌≢◌, refl, ap, ◌∙◌, arith,
  if◌then◌else◌, leb, length, ◌≤◌,
}
use parallel_workspace_serve.Prelude.Outcome.{ok}
use parallel_workspace_serve.Supervisor.Evacuation.DirtyPaths.{Bytes, split_nul}
use parallel_workspace_serve.Supervisor.Evacuation.DirtyPaths.Roundtrip.{NoNul, split_nul-append}
use parallel_workspace_serve.Supervisor.Evacuation.FilePaths.{bytes_eq}
use parallel_workspace_serve.Supervisor.Evacuation.FilePaths.Below.{bytes_eq→eq}
use parallel_workspace_serve.Supervisor.Evacuation.Archive.{
  file, Files, content, TarEntry, Reading, end_of_archive, entry, System, unreadable,
}
use parallel_workspace_serve.Supervisor.Evacuation.Archive.Contained.{IsLocal}
use parallel_workspace_serve.Supervisor.Evacuation.Archive.Overlay.{read_whole, IsHealthy}
use parallel_workspace_serve.Supervisor.Evacuation.ObjectStore.{
  Objects, put, get, head, Response, response, Server,
}
use parallel_workspace_serve.Supervisor.Evacuation.Agent.Stored.{IsStore}

abbrev pub shift : Bytes → Bytes
shift [] = []
shift (c ∷ s) = suc c ∷ shift s

abbrev pub unshift : Bytes → Bytes
unshift [] = []
unshift (c ∷ s) = (c - 1) ∷ unshift s

abbrev pub header : TarEntry → Bytes
header e = suc e.mode ∷ (if e.is_regular then 2 else 1) ∷ []

abbrev pub print_entries : List TarEntry → Bytes
print_entries [] = []
print_entries (e ∷ es) =
    shift e.name ++ 0 ∷ (header e ++ 0 ∷ (shift e.body ++ 0 ∷ print_entries es))

abbrev pub entry_of : Bytes → Bytes → Bytes → TarEntry
entry_of name (mode ∷ kind ∷ []) body = record {
  name = unshift name;
  mode = mode - 1;
  is_regular = kind == 2;
  body = unshift body;
}
entry_of name other body = record { name = []; mode = 0; is_regular = false; body = [] }

abbrev pub read_fields : List Bytes → Reading
read_fields (name ∷ kind ∷ body ∷ fields) = entry (entry_of name kind body) (read_fields fields)
read_fields fields = end_of_archive

abbrev pub pack_entries : List TarEntry → Bytes
pack_entries es = 1 ∷ print_entries es

-- Of an archive that is cut off nothing is read here.
pub unpack_within : ℕ → Bytes → Option Reading
unpack_within limit [] = none
unpack_within limit (c ∷ s) =
    if leb (length s) limit then some (read_fields (split_nul s)) else some unreadable

shift_plain : (s : Bytes) → NoNul (shift s)
shift_plain [] = tt
shift_plain (c ∷ s) = (omega arith, shift_plain s)

unshift-shift : (s : Bytes) → unshift (shift s) ≡ s
unshift-shift [] = refl
unshift-shift (c ∷ s) = ground (arith, unshift-shift s)

header_plain : (e : TarEntry) → NoNul (header e)
header_plain e = ground arith

entry_of-header : (e : TarEntry) → entry_of (shift e.name) (header e) (shift e.body) ≡ e
entry_of-header e = ground (arith, unshift-shift e.name, unshift-shift e.body)

read_fields-print_entries :
    (es : List TarEntry) → read_fields (split_nul (print_entries es)) ≡ read_whole es
unfolding split_nul
read_fields-print_entries [] = refl
read_fields-print_entries (e ∷ es) =
    let body = shift e.body ++ 0 ∷ print_entries es in
    let rest = header e ++ 0 ∷ body in
    ap read_fields (split_nul-append (shift e.name) rest (shift_plain e.name))
    ∙ (ap (λ l. read_fields (shift e.name ∷ l)) (split_nul-append (header e) body (header_plain e))
        ∙ (ap (λ l. read_fields (shift e.name ∷ header e ∷ l))
              (split_nul-append (shift e.body) (print_entries es) (shift_plain e.body))
            ∙ (ap (λ x. entry x (read_fields (split_nul (print_entries es)))) (entry_of-header e)
                ∙ ap (entry e) (read_fields-print_entries es))))

-- "/w", "a", "/w/a" and "/etc".
abbrev pub work_dir : Bytes
work_dir = b'/' ∷ b'w' ∷ []

abbrev pub work_file : Bytes
work_file = b'/' ∷ b'w' ∷ b'/' ∷ b'a' ∷ []

abbrev pub etc_file : Bytes
etc_file = b'/' ∷ b'e' ∷ b't' ∷ b'c' ∷ []

abbrev pub placed : Bytes → ℕ → Bytes → Files → Files
placed path mode body files q = if bytes_eq q path then some (file mode body) else files q

abbrev pub plain_system : System
plain_system = record {
  mkdir_all = λ dir files. ok tt files;
  open_file = λ path mode files. ok tt (placed path mode [] files);
  copy = λ path body files. ok tt (placed path 420 body files);
  lstat_fails = λ path. false;
  read_fails = λ path. false;
  pack = pack_entries;
  unpack = unpack_within;
  tar_size = λ es. length (print_entries es);
}

placed-content :
    (path q body : Bytes) (mode : ℕ) (files : Files)
    → content (placed path mode body files) q
      ≡ (if bytes_eq q path then some body else content files q)
placed-content path q body mode files = ground arith

placed_beside :
    (path q body : Bytes) (mode : ℕ) (files : Files)
    → q ≢ path
    → placed path mode body files q ≡ files q
placed_beside path q body mode files apart = ground (arith, bytes_eq→eq q path)

unpack-pack :
    (limit : ℕ) (es : List TarEntry)
    → length (print_entries es) ≤ limit
    → unpack_within limit (pack_entries es) ≡ some (read_whole es)
unfolding unpack_within
unpack-pack limit es fits = ground (arith, read_fields-print_entries es)

pub plain_system-IsHealthy : IsHealthy plain_system
plain_system-IsHealthy = record {
  makes = λ path files clear. (files, refl, (λ q. refl), λ q beside. refl);
  opens = λ path mode files clear. (
    placed path mode [] files,
    refl,
    (λ q. placed-content path q [] mode files),
    λ q differs. placed_beside path q [] mode files differs,
  );
  copies = λ path old body files there. (
    placed path 420 body files,
    refl,
    (λ q. placed-content path q body 420 files),
    λ q differs. placed_beside path q body 420 files differs,
  );
  packs = unpack-pack;
  packs_some = λ es e. cc;
}

placed_elsewhere :
    (path q body : Bytes) (mode : ℕ) (files : Files)
    → q ≢ path
    → content (placed path mode body files) q ≡ content files q
placed_elsewhere path q body mode files apart = ground (arith, bytes_eq→eq q path)

pub plain_system-IsLocal : IsLocal plain_system
plain_system-IsLocal = record {
  mkdir_all_keeps = λ dir q files. refl;
  open_file_keeps = λ path q mode files apart. placed_elsewhere path q [] mode files apart;
  copy_keeps = λ path q body files apart. placed_elsewhere path q body 420 files apart;
}

abbrev pub held : Option Bytes → Response
held none = response 404 []
held (some body) = response 200 body

abbrev pub kept_under : Bytes → Bytes → Objects → Objects
kept_under key body objects q = if bytes_eq q key then some body else objects q

abbrev pub plain_server : Server
plain_server (put key body) objects = (response 200 [], kept_under key body objects)
plain_server (get key) objects = (held (objects key), objects)
plain_server (head key) objects = (held (objects key), objects)

pub plain_server-IsStore : IsStore plain_server
plain_server-IsStore = record {
  put_stores = λ key body q objects accepted. refl;
  get_gives = λ key body objects e. ground arith;
}
