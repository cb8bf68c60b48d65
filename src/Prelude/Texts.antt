-- ===== src/Prelude/Texts.antt =====
-- Go's strings package, as far as the program uses it, on native texts.
use Prim.Native.Nat.{ℕ, zero, suc, ◌+◌, ◌-◌}
use Prim.Native.Char.{Char, code}
use Prim.Native.String
use Prim.Native.String.{String}
use text.Mathlib.Text.{◌==◌ as str_eq}
use mathlib.Core.Bool.{Bool, true, false, ◌&&◌, ◌||◌}
use mathlib.Core.List.{List, [], ◌∷◌}
use parallel_workspace_serve.Prelude.Tests.{ltb, leb, ◌==◌, if◌then◌else◌}

abbrev pub is_blank : String → Bool
is_blank String.[] = true
is_blank (String.◌∷◌ c s) = false

unfoldable pub concat_texts : List String → String
concat_texts [] = ""
concat_texts (s ∷ texts) = String.◌++◌ s (concat_texts texts)

-- strings.Join.
unfoldable pub join_texts : String → List String → String
join_texts sep [] = ""
join_texts sep (s ∷ []) = s
join_texts sep (s ∷ t ∷ texts) = String.◌++◌ s (String.◌++◌ sep (join_texts sep (t ∷ texts)))

-- unicode.IsSpace.
abbrev pub is_space : Char → Bool
is_space c =
    let n = code c in
    (leb 9 n && leb n 13)
    || n == 32
    || n == 133
    || n == 160
    || n == 5760
    || (leb 8192 n && leb n 8202)
    || n == 8232
    || n == 8233
    || n == 8239
    || n == 8287
    || n == 12288

-- strings.TrimRightFunc, TrimLeftFunc and TrimSpace.
unfoldable pub trim_right : (Char → Bool) → String → String
trim_right p String.[] = String.[]
trim_right p (String.◌∷◌ c s) =
    let rest = trim_right p s in if is_blank rest && p c then String.[] else String.◌∷◌ c rest

unfoldable pub trim_left : (Char → Bool) → String → String
trim_left p String.[] = String.[]
trim_left p (String.◌∷◌ c s) = let rest = trim_left p s in if p c then rest else String.◌∷◌ c s

unfoldable pub trim_space : String → String
unfolding trim_left trim_right
trim_space s = trim_left is_space (trim_right is_space s)

abbrev or_first_field : Char → List String → List String
or_first_field c [] = String.◌∷◌ c String.[] ∷ []
or_first_field c (f ∷ fields) = String.◌∷◌ c f ∷ fields

-- strings.Split at one character.
unfoldable pub split_text : ℕ → String → List String
split_text sep String.[] = "" ∷ []
split_text sep (String.◌∷◌ c s) =
    let rest = split_text sep s in if code c == sep then "" ∷ rest else or_first_field c rest

-- strings.HasPrefix, strings.HasSuffix and strings.Contains.
unfoldable pub has_prefix : String → String → Bool
has_prefix s String.[] = true
has_prefix String.[] (String.◌∷◌ d p) = false
has_prefix (String.◌∷◌ c s) (String.◌∷◌ d p) = code c == code d && has_prefix s p

unfoldable pub has_suffix : String → String → Bool
has_suffix String.[] p = is_blank p
has_suffix (String.◌∷◌ c s) p = str_eq (String.◌∷◌ c s) p || has_suffix s p

unfoldable pub contains : String → String → Bool
unfolding has_prefix
contains String.[] p = is_blank p
contains (String.◌∷◌ c s) p = has_prefix (String.◌∷◌ c s) p || contains s p

abbrev count_chars : String → ℕ
count_chars String.[] = 0
count_chars (String.◌∷◌ c s) = suc (count_chars s)

-- The length in UTF-8, which is what `len` counts.
abbrev char_size : Char → ℕ
char_size c =
    let n = code c in
    if ltb n 128 then 1 else if ltb n 2048 then 2 else if ltb n 65536 then 3 else 4

unfoldable pub byte_length : String → ℕ
byte_length String.[] = 0
byte_length (String.◌∷◌ c s) = char_size c + byte_length s

-- strings.Split at a separator that is not empty; `skip` characters of one are left.
unfoldable pub split_from : String → ℕ → String → List String
unfolding has_prefix
split_from sep skip String.[] = "" ∷ []
split_from sep (suc skip) (String.◌∷◌ c s) = split_from sep skip s
split_from sep zero (String.◌∷◌ c s) =
    let inside = split_from sep zero s in
    let after = split_from sep (count_chars sep - 1) s in
    if has_prefix (String.◌∷◌ c s) sep then "" ∷ after else or_first_field c inside
