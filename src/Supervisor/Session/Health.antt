-- ===== src/Supervisor/Session/Health.antt =====
-- health.go: whether the workspace may be given work.
-- The marks are files of the configuration's directory, by the source that they speak for; the glob
-- lists them in an order, and a file may be unreadable.
use parallel_workspace_serve.Prelude.{
  String, Bool, true, false, [], ◌∷◌, some, ◌&&◌, ◌||◌, not, str_eq, if◌then◌else◌, is_blank, Dict,
  insert, delete, lookup, lookup-delete, eq_iff, ◌≡◌, arith,
}

pub record Health : Type 0 where
  pub has_config_dir : Bool
  pub source : String
  pub unusable : String

-- Whether there is a path for the mark.
abbrev pub has_mark_path : Health → Bool
has_mark_path h = h.has_config_dir && not (is_blank h.source)

-- `written` tells whether the write of the file succeeds.
unfoldable pub mark_unusable : Bool → String → Health → Dict String → Health × Dict String
mark_unusable written detail h marks = (
  record h { unusable = detail },
  (if has_mark_path h && written then insert h.source detail marks else marks),
)

unfoldable pub clear_unusable : Bool → Health → Dict String → Health × Dict String
clear_unusable removed h marks = (
  record h { unusable = "" },
  (if has_mark_path h && removed then delete h.source marks else marks),
)

-- The first file that can be read.
unfoldable pub first_mark : (String → Bool) → Dict String → Bool × String
first_mark readable [] = (true, "")
first_mark readable ((source, detail) ∷ marks) =
    let rest = first_mark readable marks in if readable source then (false, detail) else rest

unfoldable pub status : (String → Bool) → Health → Dict String → Bool × String
status readable h marks =
    if not (is_blank h.unusable) || not h.has_config_dir
    then (is_blank h.unusable, h.unusable)
    else first_mark readable marks

first_mark-found :
    (readable : String → Bool) (source detail : String) (marks : Dict String)
    → readable source ≡ true
    → lookup source marks ≡ some detail
    → (first_mark readable marks).0 ≡ false
unfolding first_mark lookup
first_mark-found readable source detail [] r l = absurd (ground arith)
first_mark-found readable source detail ((key, d) ∷ marks) r l =
    grind (arith, first_mark-found readable source detail marks, eq_iff key source)

-- A workspace that a check marked stays unusable for whoever asks the supervisor while another
-- check passes and withdraws its own mark.
pub clear_unusable-others :
    (readable : String → Bool) (removed : Bool) (other server : Health) (source detail : String)
    (marks : Dict String)
    → str_eq other.source source ≡ false
    → readable source ≡ true
    → lookup source marks ≡ some detail
    → server.has_config_dir ≡ true
    → (status readable server (clear_unusable removed other marks).1).0 ≡ false
unfolding status clear_unusable
clear_unusable-others readable removed other server source detail marks apart r l c = ground (
  arith,
  lookup-delete other.source source marks,
  first_mark-found readable source detail marks r l,
  first_mark-found readable source detail (delete other.source marks) r,
)
