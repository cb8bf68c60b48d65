-- ===== src/Prelude/Maps.antt =====
-- A Go map with text keys, as an association list in which a key stands once.
use Prim.Native.Nat.{◌+◌}
use Prim.Native.String.{String}
use mathlib.Core.Path.{◌≡◌, refl}
use mathlib.Core.List.{List, [], ◌∷◌}
use mathlib.Core.Option.{Option, none, some}
use native.Mathlib.Omega.{arith}
use text.Mathlib.Text.{◌==◌ as str_eq}
use text.Mathlib.TextEquality.{eq_iff}
use text.Mathlib.TextPositions.{eq_refl}
use parallel_workspace_serve.Prelude.Tests.{if◌then◌else◌}
use parallel_workspace_serve.Prelude.Lists.{length}

abbrev pub Dict {ℓ} : Type ℓ → Type ℓ
Dict V = List (String × V)

module _ {ℓ} {V : Type ℓ} where
  unfoldable pub lookup : String → Dict V → Option V
  lookup key [] = none
  lookup key ((held, value) ∷ rest) = if str_eq held key then some value else lookup key rest

  unfoldable pub insert : String → V → Dict V → Dict V
  insert key value [] = (key, value) ∷ []
  insert key value ((held, x) ∷ rest) =
      if str_eq held key then (key, value) ∷ rest else (held, x) ∷ insert key value rest

  unfoldable pub delete : String → Dict V → Dict V
  delete key [] = []
  delete key ((held, x) ∷ rest) =
      if str_eq held key then delete key rest else (held, x) ∷ delete key rest

  pub lookup-insert :
      (key held : String) (value : V) (rest : Dict V)
      → lookup held (insert key value rest)
        ≡ (if str_eq key held then some value else lookup held rest)
  unfolding lookup insert
  lookup-insert key held value [] = refl
  lookup-insert key held value ((first, x) ∷ rest) = ground (
    arith,
    eq_iff key held,
    eq_iff first key,
    eq_iff first held,
    lookup-insert key held value rest,
  )

  pub lookup-delete :
      (key held : String) (rest : Dict V)
      → lookup held (delete key rest) ≡ (if str_eq key held then none else lookup held rest)
  unfolding lookup delete
  lookup-delete key held [] = ground arith
  lookup-delete key held ((first, x) ∷ rest) =
      ground
        (arith, eq_iff key held, eq_iff first key, eq_iff first held, lookup-delete key held rest)

  -- Deleting a key that was just inserted fresh gives the map before.
  pub delete-insert :
      (key : String) (value : V) (rest : Dict V)
      → lookup key rest ≡ none
      → delete key (insert key value rest) ≡ delete key rest
  unfolding lookup insert delete
  delete-insert key value [] h = ground (arith, eq_refl key)
  delete-insert key value ((first, x) ∷ rest) h =
      ground (arith, eq_refl key, delete-insert key value rest)

  pub delete_absent :
      (key : String) (rest : Dict V) → lookup key rest ≡ none → delete key rest ≡ rest
  unfolding lookup delete
  delete_absent key [] h = refl
  delete_absent key ((first, x) ∷ rest) h = ground (arith, delete_absent key rest)

  pub length-insert :
      (key : String) (value : V) (rest : Dict V)
      → lookup key rest ≡ none
      → length (insert key value rest) ≡ length rest + 1
  unfolding lookup insert
  length-insert key value [] h = omega arith
  length-insert key value ((first, x) ∷ rest) h = ground (arith, length-insert key value rest)
