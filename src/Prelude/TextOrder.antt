-- ===== src/Prelude/TextOrder.antt =====
-- The order of texts: irreflexive, asymmetric, transitive and total.
use Prim.Native.String.{String}
use Prim.Native.String.compare as compare_by
use mathlib.Core.Path.{◌≡◌, refl}
use mathlib.Core.Bool.{true, false}
use native.Mathlib.Omega.{arith}
use text.Mathlib.Text.{◌==◌ as str_eq}
use parallel_workspace_serve.Prelude.Tests.{str_ltb}

pub str_ltb_asymm : (s t : String) → str_ltb s t ≡ true → str_ltb t s ≡ false
str_ltb_asymm String.[] String.[] h = cc
str_ltb_asymm String.[] (String.◌∷◌ d t) h = ground (arith, compare_by.cons-nil d t)
str_ltb_asymm (String.◌∷◌ c s) String.[] h = ground (arith, compare_by.cons-nil c s)
str_ltb_asymm (String.◌∷◌ c s) (String.◌∷◌ d t) h =
    ground (arith, compare_by.cons-cons c d s t, compare_by.cons-cons d c t s, str_ltb_asymm s t)

-- Not behind: `t` is not before `s`.
pub str_le_trans :
    (s t u : String) → str_ltb t s ≡ false → str_ltb u t ≡ false → str_ltb u s ≡ false
str_le_trans String.[] String.[] String.[] h k = h
str_le_trans String.[] String.[] (String.◌∷◌ e u) h k = ground (arith, compare_by.cons-nil e u)
str_le_trans String.[] (String.◌∷◌ d t) String.[] h k = refl
str_le_trans String.[] (String.◌∷◌ d t) (String.◌∷◌ e u) h k =
    ground (arith, compare_by.cons-nil e u)
str_le_trans (String.◌∷◌ c s) String.[] u h k = ground (arith, compare_by.nil-cons c s)
str_le_trans (String.◌∷◌ c s) (String.◌∷◌ d t) String.[] h k =
    ground (arith, compare_by.nil-cons d t)
str_le_trans (String.◌∷◌ c s) (String.◌∷◌ d t) (String.◌∷◌ e u) h k = ground (
  arith,
  compare_by.cons-cons d c t s,
  compare_by.cons-cons e d u t,
  compare_by.cons-cons e c u s,
  str_le_trans s t u,
)

pub str_ltb_irrefl : (s : String) → str_ltb s s ≡ false
str_ltb_irrefl String.[] = refl
str_ltb_irrefl (String.◌∷◌ c s) = ground (arith, compare_by.cons-cons c c s s, str_ltb_irrefl s)

-- Of two different texts, the one that is not before comes behind.
pub str_ltb_total : (s t : String) → str_ltb s t ≡ false → str_eq s t ≡ false → str_ltb t s ≡ true
str_ltb_total String.[] String.[] h k = cc
str_ltb_total String.[] (String.◌∷◌ d t) h k = ground (arith, compare_by.nil-cons d t)
str_ltb_total (String.◌∷◌ c s) String.[] h k = ground (arith, compare_by.nil-cons c s)
str_ltb_total (String.◌∷◌ c s) (String.◌∷◌ d t) h k =
    ground (arith, compare_by.cons-cons c d s t, compare_by.cons-cons d c t s, str_ltb_total s t)
