-- ===== src/Base/Dict.antt =====
-- A Go map with text keys, as an association list with one entry for a key.
use Prim.Native.String.{String}
use mathlib.Core.Path.{◌≡◌, refl}
use mathlib.Core.Bool.{false}
use mathlib.Core.List.{List, [], ◌∷◌}
use mathlib.Core.Option.{Option, none, some}
use native.Mathlib.Omega.{arith}
use text.Mathlib.Text.{◌==◌}
use text.Mathlib.TextEquality.{eq_iff}
use text.Mathlib.TextPositions.{eq_refl}
use rpi_procmon.Base.Tests.{if◌then◌else◌}

abbrev pub Dict {ℓ} : Type ℓ → Type ℓ
Dict V = List (String × V)

module _ {ℓ} {V : Type ℓ} where
  -- `dict[key]`, with the second result of the two-valued form as the option.
  unfoldable pub lookup : String → Dict V → Option V
  lookup key [] = none
  lookup key (entry ∷ rest) = if entry.0 == key then some (entry.1) else lookup key rest

  -- `dict[key] = value`.
  unfoldable pub insert : String → V → Dict V → Dict V
  insert key value [] = (key, value) ∷ []
  insert key value (entry ∷ rest) =
      if entry.0 == key then (key, value) ∷ rest else entry ∷ insert key value rest

  -- A write changes what its own key has, and nothing else.
  pub lookup-insert :
      (written read : String) (value : V) (dict : Dict V)
      → lookup read (insert written value dict)
        ≡ (if written == read then some value else lookup read dict)
  unfolding lookup insert
  lookup-insert written read value [] = refl
  lookup-insert written read value (entry ∷ rest) = ground (
    lookup-insert written read value rest,
    arith,
    eq_iff entry.0 written,
    eq_iff entry.0 read,
    eq_iff written read,
  )

  pub lookup-insert_self :
      (key : String) (value : V) (dict : Dict V) → lookup key (insert key value dict) ≡ some value
  lookup-insert_self key value dict = simp (lookup-insert, eq_refl)

  pub lookup-insert_ne :
      (written read : String) (value : V) (dict : Dict V)
      → (written == read) ≡ false
      → lookup read (insert written value dict) ≡ lookup read dict
  lookup-insert_ne written read value dict h = rw (lookup-insert written read value dict, h)
