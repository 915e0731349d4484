-- ===== src/Value.antt =====
-- The dynamic values of an unstructured Kubernetes object (`map[string]interface{}` and what may
-- stand in it), with the conversions to Go maps and slices as lists.
pub mod Print
use service_binding_operator.Base.{String, ◌≡◌, refl, Bool, List, [], ◌∷◌, ap}
use service_binding_operator.Base.Dict.{Dict}

mutual
  pub data Value : Type 0 where
    null : Value
    text : String → Value
    -- An `int64` or a `float64`, as the text that `fmt` prints for it.
    number : String → Value
    bool : Bool → Value
    -- `map[string]interface{}`
    object : Fields → Value
    -- `[]interface{}`
    array : Items → Value
    -- `[]map[string]interface{}`, a type of its own in a Go type switch.
    rows : Rows → Value

  pub data Fields : Type 0 where
    end : Fields
    field : String → Value → Fields → Fields

  pub data Items : Type 0 where
    nil : Items
    item : Value → Items → Items

  pub data Rows : Type 0 where
    empty : Rows
    row : Fields → Rows → Rows

-- A `map[string]interface{}` as a dictionary.
abbrev pub Object : Type 0
Object = Dict Value

unfoldable pub entries : Fields → Object
entries end = []
entries (field k v f) = (k, v) ∷ entries f

unfoldable pub fields : Object → Fields
fields [] = end
fields ((k, v) ∷ m) = field k v (fields m)

unfoldable pub elements : Items → List Value
elements nil = []
elements (item v vs) = v ∷ elements vs

unfoldable pub objects : Rows → List Object
unfolding entries
objects empty = []
objects (row f rs) = entries f ∷ objects rs

unfoldable pub row_list : List Object → Rows
unfolding fields
row_list [] = empty
row_list (m ∷ ms) = row (fields m) (row_list ms)

-- A Go map as a value.
abbrev pub object_of : Object → Value
object_of m = object (fields m)

-- A slice of Go maps as a value.
abbrev pub rows_of : List Object → Value
rows_of ms = rows (row_list ms)

pub entries-fields : (m : Object) → entries (fields m) ≡ m
unfolding entries fields
entries-fields [] = refl
entries-fields ((k, v) ∷ m) = ap (λ (r : Object). (k, v) ∷ r) (entries-fields m)

pub fields-entries : (f : Fields) → fields (entries f) ≡ f
unfolding entries fields
fields-entries end = refl
fields-entries (field k v f) = ap (λ (g : Fields). field k v g) (fields-entries f)

pub objects-row_list : (ms : List Object) → objects (row_list ms) ≡ ms
unfolding objects row_list
objects-row_list [] = refl
objects-row_list (m ∷ ms) = cc (entries-fields m, objects-row_list ms)
