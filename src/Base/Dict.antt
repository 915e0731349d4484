-- ===== src/Base/Dict.antt =====
-- Go maps with text keys, as association lists. The order of the list stands for the order in
-- which a `range` loop happens to visit the map.
use Prim.Native.String.{String}
use mathlib.Core.Path.{◌≡◌, refl}
use mathlib.Core.Bool.{Bool}
use mathlib.Core.Option.{Option, none, some}
use mathlib.Core.List.{List, [], ◌∷◌}
use native.Mathlib.Omega.{arith}
use text.Mathlib.Text.{◌==◌}
use text.Mathlib.TextEquality.{eq_iff}
use service_binding_operator.Base.Tests.{if◌then◌else◌}
use service_binding_operator.Base.Text.{is_some}

abbrev pub Dict {ℓ} : Type ℓ → Type ℓ
Dict V = List (String × V)

module _ {ℓ} {V : Type ℓ} where
  -- `v, found := m[key]`
  unfoldable pub lookup : (key : String) → Dict V → Option V
  lookup key [] = none
  lookup key ((other, held) ∷ rest) = if other == key then some held else lookup key rest

  -- `m[key] = v`
  unfoldable pub insert : (key : String) → V → Dict V → Dict V
  insert key v [] = (key, v) ∷ []
  insert key v ((other, held) ∷ rest) =
      if other == key then (key, v) ∷ rest else (other, held) ∷ insert key v rest

  -- `delete(m, k)`
  unfoldable pub erase : String → Dict V → Dict V
  erase k [] = []
  erase k ((j, w) ∷ m) = let rest = erase k m in if j == k then rest else (j, w) ∷ rest

  -- `_, found := m[k]`
  abbrev pub contains : String → Dict V → Bool
  contains k m = is_some (lookup k m)

  -- `for k, v := range src { dst[k] = v }`
  unfoldable pub merge : Dict V → Dict V → Dict V
  merge dst [] = dst
  merge dst ((k, v) ∷ src) = merge (insert k v dst) src

  pub lookup-insert :
      (key asked : String) (v : V) (m : Dict V)
      → lookup asked (insert key v m) ≡ (if key == asked then some v else lookup asked m)
  unfolding lookup insert
  lookup-insert key asked v [] = refl
  lookup-insert key asked v ((other, held) ∷ rest) = ground (
    arith,
    eq_iff other key,
    eq_iff other asked,
    eq_iff key asked,
    lookup-insert key asked v rest,
  )

  pub lookup-erase :
      (k j : String) (m : Dict V) → lookup j (erase k m) ≡ (if k == j then none else lookup j m)
  unfolding lookup erase
  lookup-erase k j [] = ground arith
  lookup-erase k j ((i, w) ∷ m) =
      ground (arith, eq_iff k j, eq_iff i k, eq_iff i j, lookup-erase k j m)

  -- A write of the value that is there changes nothing.
  pub insert_same : (k : String) (v : V) (m : Dict V) → lookup k m ≡ some v → insert k v m ≡ m
  unfolding lookup insert
  insert_same k v [] h = cc
  insert_same k v ((j, w) ∷ m) h = ground (arith, eq_iff j k, insert_same k v m)
