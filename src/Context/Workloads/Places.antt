-- ===== src/Context/Workloads/Places.antt =====
-- Places in an object: the value at a place, and a map put there. They stand for the references
-- that the program holds into the maps of an object.
use service_binding_operator.Base.{String, ℕ, zero, suc, Option, none, some, List, [], ◌∷◌}
use service_binding_operator.Base.Dict.{lookup, insert}
use service_binding_operator.Value.{
  Value, object, array, Fields, Items, nil, item, Object, object_of, entries, fields,
}

pub data Step : Type 0 where
  key : String → Step
  index : ℕ → Step

abbrev pub Place : Type 0
Place = List Step

abbrev value_of : String → Fields → Option Value
value_of k f = lookup k (entries f)

item_at : ℕ → Items → Option Value
item_at n nil = none
item_at zero (item v vs) = some v
item_at (suc n) (item v vs) = item_at n vs

put_item : ℕ → Value → Items → Items
put_item n u nil = nil
put_item zero u (item v vs) = item u vs
put_item (suc n) u (item v vs) = item v (put_item n u vs)

unfoldable pub get_at : Place → Value → Option Value
unfolding lookup entries item_at
get_at [] v = some v
get_at (key k ∷ p) (object f) = elim (value_of k f) [ none ↦ none | some v ↦ get_at p v ]
get_at (index n ∷ p) (array vs) = elim (item_at n vs) [ none ↦ none | some v ↦ get_at p v ]
get_at _ _ = none

-- The value with another one at a place that is there.
put_value : Place → Value → Value → Value
unfolding lookup entries fields item_at put_item insert
put_value [] u v = u
put_value (key k ∷ p) u (object f) = elim (value_of k f) [
  | none ↦ object f
  | some v ↦ object (fields (insert k (put_value p u v) (entries f)))
]
put_value (index n ∷ p) u (array vs) = elim (item_at n vs) [
  | none ↦ array vs
  | some v ↦ array (put_item n (put_value p u v) vs)
]
put_value _ u v = v

abbrev object_in : Object → Value → Object
object_in o (object f) = entries f
object_in o _ = o

-- The object with a map at a place.
unfoldable pub put_at : Place → (map' : Object) → Object → Object
unfolding put_value entries
put_at p m o = object_in o (put_value p (object_of m) (object_of o))
