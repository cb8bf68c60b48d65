-- ===== src/Controller/Naming.antt =====
-- naming.go: the name of a branch's objects. After the first replacement a text is ASCII, so a
-- length in bytes is one in characters.
-- strings.ToLower and the hexadecimal SHA-256 of the standard library are arguments.
pub mod Labels
use Prim.Native.Char.{Char, char, code}
use Prim.Native.String
use parallel_workspace_serve.Prelude.{
  ℕ, zero, suc, ◌-◌, String, Bool, true, false, Option, none, some, ◌&&◌, ◌||◌, ◌==◌, ltb, leb,
  if◌then◌else◌, is_blank, trim_left, trim_right,
}

abbrev pub dns_label_max_length : ℕ
dns_label_max_length = 63

abbrev pub hash_suffix_length : ℕ
hash_suffix_length = 8

abbrev pub dash : Char
dash = char 45 tt

abbrev pub is_dash : Char → Bool
is_dash c = code c == 45

-- `[a-z0-9-]`.
abbrev pub is_label_char : Char → Bool
is_label_char c =
    (leb 97 (code c) && leb (code c) 122) || (leb 48 (code c) && leb (code c) 57) || is_dash c

abbrev pub text_length : String → ℕ
text_length String.[] = 0
text_length (String.◌∷◌ c s) = suc (text_length s)

abbrev pub take_text : ℕ → String → String
take_text zero s = String.[]
take_text (suc n) String.[] = String.[]
take_text (suc n) (String.◌∷◌ c s) = String.◌∷◌ c (take_text n s)

-- `[^a-z0-9-]+` replaced by a dash; `inside` a run of such characters.
unfoldable pub replace_invalid : Bool → String → String
replace_invalid inside String.[] = String.[]
replace_invalid inside (String.◌∷◌ c s) =
    let kept = String.◌∷◌ c (replace_invalid false s) in
    let run = replace_invalid true s in
    if is_label_char c then kept else (if inside then run else String.◌∷◌ dash run)

-- `-+` replaced by a dash.
unfoldable pub collapse_dashes : Bool → String → String
collapse_dashes inside String.[] = String.[]
collapse_dashes inside (String.◌∷◌ c s) =
    let kept = String.◌∷◌ c (collapse_dashes false s) in
    let run = collapse_dashes true s in
    if is_dash c then (if inside then run else String.◌∷◌ dash run) else kept

unfoldable pub truncate_dns_label : String → ℕ → String
truncate_dns_label s limit =
    trim_right is_dash (if ltb limit (text_length s) then take_text limit s else s)

module _ (to_lower : String → String) (hex_digest : String → String) where
  unfoldable pub sanitize_dns_label : String → String
  sanitize_dns_label s =
      let collapsed = collapse_dashes false (replace_invalid false (to_lower s)) in
      truncate_dns_label (trim_left is_dash (trim_right is_dash collapsed)) dns_label_max_length

  unfoldable pub short_hash : String → String
  short_hash s = take_text hash_suffix_length (hex_digest s)

  abbrev pub base_name : String → String
  base_name branch =
      if is_blank (sanitize_dns_label branch) then "ws" else sanitize_dns_label branch

  abbrev pub name_suffix : String → String
  name_suffix branch = String.◌∷◌ dash (short_hash branch)

  abbrev pub candidate_name : String → String
  candidate_name branch =
      String.◌++◌
        (truncate_dns_label (base_name branch)
          (dns_label_max_length - text_length (name_suffix branch)))
        (name_suffix branch)

  -- `none` where no free name can be derived.
  unfoldable pub derive_resource_name : String → (String → Bool) → Option String
  derive_resource_name branch taken =
      if taken (base_name branch)
      then (if taken (candidate_name branch) then none else some (candidate_name branch))
      else some (base_name branch)

-- ingress_reconciler.go: `hostLabelWithSuffix`, and the hosts of a workspace.
unfoldable pub host_label_with_suffix : String → String → String
host_label_with_suffix base suffix =
    String.◌++◌ (truncate_dns_label base (dns_label_max_length - text_length suffix)) suffix
