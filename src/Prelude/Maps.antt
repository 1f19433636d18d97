-- ===== src/Prelude/Maps.antt =====
-- A Go map as the list of its entries, in the order in which one `range` visits them.
use Prim.Native.String.{String}
use mathlib.Core.Path.{◌≡◌, refl}
use mathlib.Core.Bool.{false}
use mathlib.Core.Option.{Option, none, some}
use mathlib.Core.List.{List, [], ◌∷◌}
use native.Mathlib.Omega.{arith}
use text.Mathlib.TextPositions.{eq_refl}
use text.Mathlib.TextEquality.{eq_iff}
use text.Mathlib.Text.{◌==◌}
use zen_cleaner.Prelude.Tests.{if◌then◌else◌}

module _ {ℓ} {Value : Type ℓ} where
  -- `m[key] = value`.
  unfoldable pub insert : String → Value → List (String × Value) → List (String × Value)
  insert key value [] = (key, value) ∷ []
  insert key value ((other, old) ∷ more) =
      let kept = (other, old) ∷ insert key value more in
      if other == key then (key, value) ∷ more else kept

  -- `value, ok := m[key]`.
  unfoldable pub lookup : String → List (String × Value) → Option Value
  lookup key [] = none
  lookup key ((other, value) ∷ more) =
      let further = lookup key more in if other == key then some value else further

  -- `delete(m, key)`.
  unfoldable pub erase : String → List (String × Value) → List (String × Value)
  erase key [] = []
  erase key ((other, value) ∷ more) =
      let rest = erase key more in if other == key then rest else (other, value) ∷ rest

  pub lookup-insert_same :
      (key : String) (value : Value) (entries : List (String × Value))
      → lookup key (insert key value entries) ≡ some value
  unfolding insert lookup
  lookup-insert_same key value [] = simp (eq_refl key)
  lookup-insert_same key value ((other, old) ∷ more) =
      ground (arith, eq_refl key, lookup-insert_same key value more)

  pub lookup-insert_other :
      (key wanted : String) (value : Value) (entries : List (String × Value))
      → (key == wanted) ≡ false
      → lookup wanted (insert key value entries) ≡ lookup wanted entries
  unfolding insert lookup
  lookup-insert_other key wanted value [] d = simp d
  lookup-insert_other key wanted value ((other, old) ∷ more) d = ground (
    arith,
    eq_iff other key,
    eq_iff key wanted,
    eq_iff other wanted,
    lookup-insert_other key wanted value more d,
  )

  pub lookup-erase_same :
      (key : String) (entries : List (String × Value)) → lookup key (erase key entries) ≡ none
  unfolding erase lookup
  lookup-erase_same key [] = refl
  lookup-erase_same key ((other, old) ∷ more) = ground (arith, lookup-erase_same key more)

  pub lookup-erase_other :
      (key wanted : String) (entries : List (String × Value))
      → (key == wanted) ≡ false
      → lookup wanted (erase key entries) ≡ lookup wanted entries
  unfolding erase lookup
  lookup-erase_other key wanted [] d = refl
  lookup-erase_other key wanted ((other, old) ∷ more) d = ground (
    arith,
    eq_iff other key,
    eq_iff key wanted,
    eq_iff other wanted,
    lookup-erase_other key wanted more d,
  )
