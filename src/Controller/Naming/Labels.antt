-- ===== src/Controller/Naming/Labels.antt =====
-- naming.go: a derived name is a DNS label, and is free.
use Prim.Native.Char.{Char, code}
use Prim.Native.String
use text.Mathlib.TextLemmas.{cons-append, nil-append}
use parallel_workspace_serve.Prelude.{
  sym, ◌⊎◌, ap, ◌∙◌, ℕ, zero, suc, ◌+◌, ◌≤◌, String, Bool, true, false, some, ◌&&◌, ◌||◌, leb,
  if◌then◌else◌, is_blank, trim_left, trim_right, ◌≡◌, arith, refl, Bool-cases, inl, inr,
}
use parallel_workspace_serve.Controller.Naming.{
  is_dash, is_label_char, text_length, take_text, replace_invalid, collapse_dashes,
  truncate_dns_label, sanitize_dns_label, short_hash, base_name, name_suffix, candidate_name,
  derive_resource_name,
}

abbrev pub all_chars : (Char → Bool) → String → Bool
all_chars p String.[] = true
all_chars p (String.◌∷◌ c s) = p c && all_chars p s

abbrev pub starts_dash : String → Bool
starts_dash String.[] = false
starts_dash (String.◌∷◌ c s) = is_dash c

abbrev pub ends_dash : String → Bool
ends_dash String.[] = false
ends_dash (String.◌∷◌ c s) = if is_blank s then is_dash c else ends_dash s

-- A DNS-1123 label: some of `a-z`, `0-9` and dashes, with a dash at neither end, and at most 63.
pub record IsLabel (s : String) : Type 0 where
  pub chars : all_chars is_label_char s ≡ true
  pub some_char : is_blank s ≡ false
  pub start : starts_dash s ≡ false
  pub end : ends_dash s ≡ false
  pub short : text_length s ≤ 63

replace_invalid-chars :
    (inside : Bool) (s : String) → all_chars is_label_char (replace_invalid inside s) ≡ true
unfolding replace_invalid
replace_invalid-chars inside String.[] = refl
replace_invalid-chars inside (String.◌∷◌ c s) =
    ground (arith, replace_invalid-chars true s, replace_invalid-chars false s)

collapse_dashes-chars :
    (inside : Bool) (s : String)
    → all_chars is_label_char s ≡ true
    → all_chars is_label_char (collapse_dashes inside s) ≡ true
unfolding collapse_dashes
collapse_dashes-chars inside String.[] h = refl
collapse_dashes-chars inside (String.◌∷◌ c s) h =
    ground (arith, collapse_dashes-chars true s, collapse_dashes-chars false s)

-- What trimming keeps, and what it ends.
pub trim_right-lem :
    (p : Char → Bool) (s : String)
    → all_chars p s ≡ true
    → (all_chars p (trim_right is_dash s) ≡ true)
      × (ends_dash (trim_right is_dash s) ≡ false)
      × (text_length (trim_right is_dash s) ≤ text_length s)
unfolding trim_right
trim_right-lem p String.[] h = (refl, refl, omega arith)
trim_right-lem p (String.◌∷◌ c s) h = ground (arith, trim_right-lem p s)

trim_right-start :
    (s : String)
    → starts_dash s ≡ false
    → (starts_dash (trim_right is_dash s) ≡ false) × (is_blank (trim_right is_dash s) ≡ is_blank s)
unfolding trim_right
trim_right-start String.[] h = (refl, refl)
trim_right-start (String.◌∷◌ c s) h = ground arith

trim_left-lem :
    (p : Char → Bool) (s : String)
    → all_chars p s ≡ true
    → (all_chars p (trim_left is_dash s) ≡ true) × (starts_dash (trim_left is_dash s) ≡ false)
unfolding trim_left
trim_left-lem p String.[] h = (refl, refl)
trim_left-lem p (String.◌∷◌ c s) h = ground (arith, trim_left-lem p s)

take_text-lem :
    (p : Char → Bool) (n : ℕ) (s : String)
    → all_chars p s ≡ true
    → (all_chars p (take_text n s) ≡ true) × (text_length (take_text n s) ≤ n)
take_text-lem p zero s h = (refl, omega arith)
take_text-lem p (suc n) String.[] h = (refl, omega arith)
take_text-lem p (suc n) (String.◌∷◌ c s) h = ground (arith, take_text-lem p n s)

take_text-start :
    (n : ℕ) (s : String)
    → starts_dash s ≡ false
    → (starts_dash (take_text (suc n) s) ≡ false) × (is_blank (take_text (suc n) s) ≡ is_blank s)
take_text-start n String.[] h = (refl, refl)
take_text-start n (String.◌∷◌ c s) h = (h, refl)

truncate-lem :
    (n : ℕ) (s : String)
    → all_chars is_label_char s ≡ true
    → starts_dash s ≡ false
    → (all_chars is_label_char (truncate_dns_label s (suc n)) ≡ true)
      × (starts_dash (truncate_dns_label s (suc n)) ≡ false)
      × (ends_dash (truncate_dns_label s (suc n)) ≡ false)
      × (is_blank (truncate_dns_label s (suc n)) ≡ is_blank s)
      × (text_length (truncate_dns_label s (suc n)) ≤ suc n)
unfolding truncate_dns_label
truncate-lem n s c d = ground (
  arith,
  take_text-lem is_label_char (suc n) s,
  take_text-start n s,
  trim_right-lem is_label_char (take_text (suc n) s),
  trim_right-lem is_label_char s,
  trim_right-start (take_text (suc n) s),
  trim_right-start s,
)

all_chars-append :
    (p : Char → Bool) (s t : String)
    → all_chars p (String.◌++◌ s t) ≡ (all_chars p s && all_chars p t)
all_chars-append p String.[] t = ground (arith, nil-append t)
all_chars-append p (String.◌∷◌ c s) t =
    ap (all_chars p) (cons-append c s t) ∙ ground (arith, all_chars-append p s t)

text_length-append : (s t : String) → text_length (String.◌++◌ s t) ≡ text_length s + text_length t
text_length-append String.[] t = ground (arith, nil-append t)
text_length-append (String.◌∷◌ c s) t =
    ap text_length (cons-append c s t) ∙ ground (arith, text_length-append s t)

starts_dash-append :
    (s t : String)
    → is_blank s ≡ false
    → (starts_dash (String.◌++◌ s t) ≡ starts_dash s) × (is_blank (String.◌++◌ s t) ≡ false)
starts_dash-append String.[] t h = ground arith
starts_dash-append (String.◌∷◌ c s) t h =
    (ap starts_dash (cons-append c s t), ap is_blank (cons-append c s t))

ends_dash-append :
    (s t : String)
    → is_blank t ≡ false
    → (ends_dash (String.◌++◌ s t) ≡ ends_dash t) × (is_blank (String.◌++◌ s t) ≡ false)
ends_dash-append String.[] t h = ground (arith, nil-append t)
ends_dash-append (String.◌∷◌ c s) t h = (
  ap ends_dash (cons-append c s t) ∙ ground (arith, ends_dash-append s t),
  ap is_blank (cons-append c s t),
)

-- Of a long enough digest the suffix is nine characters.
take_text-length : (n : ℕ) (s : String) → n ≤ text_length s → text_length (take_text n s) ≡ n
take_text-length zero s h = refl
take_text-length (suc n) String.[] h = absurd (omega arith)
take_text-length (suc n) (String.◌∷◌ c s) h = ground (arith, take_text-length n s)

some_text-length : (s : String) → 1 ≤ text_length s → is_blank s ≡ false
some_text-length String.[] h = absurd (omega arith)
some_text-length (String.◌∷◌ c s) h = refl

-- A hexadecimal digit.
abbrev pub is_hex : Char → Bool
is_hex c = (leb 97 (code c) && leb (code c) 102) || (leb 48 (code c) && leb (code c) 57)

is_hex-label :
    (s : String)
    → all_chars is_hex s ≡ true
    → (all_chars is_label_char s ≡ true) × (ends_dash s ≡ false)
is_hex-label String.[] h = (refl, refl)
is_hex-label (String.◌∷◌ c s) h = ground (arith, is_hex-label s)

module _ (to_lower : String → String) (hex_digest : String → String) where
  pub sanitized-lem :
      (b : String)
      → (all_chars is_label_char (sanitize_dns_label to_lower hex_digest b) ≡ true)
        × (starts_dash (sanitize_dns_label to_lower hex_digest b) ≡ false)
        × (ends_dash (sanitize_dns_label to_lower hex_digest b) ≡ false)
        × (text_length (sanitize_dns_label to_lower hex_digest b) ≤ 63)
  unfolding sanitize_dns_label
  sanitized-lem b =
      let valid = replace_invalid-chars false (to_lower b) in
      let single = collapse_dashes-chars false (replace_invalid false (to_lower b)) valid in
      let right = trim_right-lem is_label_char _ single in
      let left = trim_left-lem is_label_char _ (right.0) in
      let t = truncate-lem 62 _ (left.0) (left.1) in (t.0, t.1, t.2, t.4)

  pub base_name-IsLabel : (b : String) → IsLabel (base_name to_lower hex_digest b)
  base_name-IsLabel b = elim (Bool-cases (is_blank (sanitize_dns_label to_lower hex_digest b))) [
    | inl e ↦
        rw e
          (record { chars = refl; some_char = refl; start = refl; end = refl; short = omega arith })
    | inr e ↦
        let t = sanitized-lem b in
        rw e (record { chars = t.0; some_char = e; start = t.1; end = t.2; short = t.3 })
  ]

  -- The suffix is a dash and eight of the digest.
  name_suffix-lem :
      (b : String)
      → ((s : String) → all_chars is_hex (hex_digest s) ≡ true)
      → ((s : String) → text_length (hex_digest s) ≡ 64)
      → (all_chars is_label_char (name_suffix to_lower hex_digest b) ≡ true)
        × (ends_dash (name_suffix to_lower hex_digest b) ≡ false)
        × (text_length (name_suffix to_lower hex_digest b) ≡ 9)
  unfolding short_hash
  name_suffix-lem b h l =
      let digits = (take_text-lem is_hex 8 (hex_digest b) (h b)).0 in
      let eight = take_text-length 8 (hex_digest b) (omega (arith, l b)) in
      let label = is_hex-label (take_text 8 (hex_digest b)) digits in
      ground (arith, label, eight, some_text-length (take_text 8 (hex_digest b)))

  candidate_name-IsLabel :
      (b : String)
      → ((s : String) → all_chars is_hex (hex_digest s) ≡ true)
      → ((s : String) → text_length (hex_digest s) ≡ 64)
      → IsLabel (candidate_name to_lower hex_digest b)
  candidate_name-IsLabel b h l =
      let suffix = name_suffix-lem b h l in
      let base = base_name-IsLabel b in
      let cut = truncate-lem 53 (base_name to_lower hex_digest b) base.chars base.start in
      let start =
        starts_dash-append (truncate_dns_label (base_name to_lower hex_digest b) 54)
          (name_suffix to_lower hex_digest b) (cut.3 ∙ base.some_char) in
      let end =
        ends_dash-append (truncate_dns_label (base_name to_lower hex_digest b) 54)
          (name_suffix to_lower hex_digest b) refl in
      rw suffix.2 (record {
        chars =
            all_chars-append is_label_char (truncate_dns_label (base_name to_lower hex_digest b) 54)
              (name_suffix to_lower hex_digest b)
            ∙ ground (arith, cut, suffix);
        some_char = start.1;
        start = start.0 ∙ cut.1;
        end = end.0 ∙ suffix.1;
        short = rw text_length-append (omega (arith, cut.4, suffix.2));
      })

  derived-cases :
      (b : String) (taken : String → Bool) (name : String)
      → derive_resource_name to_lower hex_digest b taken ≡ some name
      → ((base_name to_lower hex_digest b ≡ name)
          × (taken (base_name to_lower hex_digest b) ≡ false))
        ⊎ ((candidate_name to_lower hex_digest b ≡ name)
            × (taken (candidate_name to_lower hex_digest b) ≡ false))
  unfolding derive_resource_name
  derived-cases b taken name e = ground arith

  -- A name that derive_resource_name gives is a DNS label and is not taken, when the digest is 64
  -- hexadecimal digits.
  pub derive_resource_name-IsLabel :
      (branch : String) (taken : String → Bool)
      → ((s : String) → all_chars is_hex (hex_digest s) ≡ true)
      → ((s : String) → text_length (hex_digest s) ≡ 64)
      → (name : String) → derive_resource_name to_lower hex_digest branch taken ≡ some name
      → IsLabel name × (taken name ≡ false)
  derive_resource_name-IsLabel branch taken h l name e = elim (derived-cases branch taken name e) [
    | inl (own, free) ↦ rw (sym own) (base_name-IsLabel branch, free)
    | inr (hashed, free) ↦ rw (sym hashed) (candidate_name-IsLabel branch h l, free)
  ]
