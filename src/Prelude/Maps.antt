-- ===== src/Prelude/Maps.antt =====
-- A Go `map` with string keys: the entries in any order, at most one for each key that was written.
use Prim.Native.String.{String}
use text.Mathlib.Text.{◌==◌}
use text.Mathlib.TextEquality.{eq_iff}
use text.Mathlib.TextPositions.{eq_refl}
use mathlib.Core.Path.{◌≡◌}
use mathlib.Core.Bool.{true, false}
use mathlib.Core.Option.{Option, none, some}
use mathlib.Core.List.{List, [], ◌∷◌}
use native.Mathlib.Omega.{arith}

module _ {ℓ} {V : Type ℓ} where
  -- `m[key]`, with `none` for a missing key.
  unfoldable pub at_key : List (String × V) → String → Option V
  at_key [] key = none
  at_key ((name, value) ∷ rest) key = elim (name == key) [
    | true ↦ some value
    | false ↦ at_key rest key
  ]

  -- `m[key] = value`.
  unfoldable pub assign : List (String × V) → String → V → List (String × V)
  assign [] key value = (key, value) ∷ []
  assign ((name, old) ∷ rest) key value = elim (name == key) [
    | true ↦ (name, value) ∷ rest
    | false ↦ (name, old) ∷ assign rest key value
  ]

  pub at_key-assign_self :
      (m : List (String × V)) (key : String) (value : V)
      → at_key (assign m key value) key ≡ some value
  unfolding at_key assign
  at_key-assign_self [] key value = rw (eq_refl key, at_key)
  at_key-assign_self ((name, old) ∷ rest) key value =
      ground (arith, at_key-assign_self rest key value)

  pub at_key-assign_ne :
      (m : List (String × V)) (key other : String) (value : V)
      → (key == other) ≡ false
      → at_key (assign m key value) other ≡ at_key m other
  unfolding at_key assign
  at_key-assign_ne [] key other value h = rw (h, at_key)
  at_key-assign_ne ((name, old) ∷ rest) key other value h = ground (
    arith,
    eq_iff name key,
    eq_iff name other,
    eq_iff key other,
    at_key-assign_ne rest key other value h,
  )
