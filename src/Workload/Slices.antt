-- ===== src/Workload/Slices.antt =====
-- Reading and writing a slice of resources at a path of an object.
pub mod Readable
pub mod ReadBack
pub mod Again
use service_binding_operator.Base.{
  String, Option, none, some, List, [], ◌∷◌, ◌++◌, Result, ok, err, panic, error, errorf, ◌>>=◌,
}
use service_binding_operator.Base.Dict.{lookup, insert}
use service_binding_operator.Value.{
  Value, object, array, rows, Object, object_of, rows_of, entries, elements, objects,
}
use service_binding_operator.Machinery.{Machinery, Codec, found, missing, invalid}

-- The first loop of `NestedResources`: every element reads as a resource of the type.
pub check_objects : {A : Type 0} → Codec A → List Object → Result (List Object)
check_objects c [] = ok []
check_objects c (m ∷ ms) = do _ ← c.read m; rest ← check_objects c ms; ok (m ∷ rest)

-- The second loop: an element is a map first.
pub check_values : {A : Type 0} → Codec A → List Value → Result (List Object)
check_values c [] = ok []
check_values c (object f ∷ vs) = do
  _ ← c.read (entries f)
  rest ← check_values c vs
  ok (entries f ∷ rest)
check_values c (_ ∷ vs) = err (error "not a map")

check_slice : {A : Type 0} → Codec A → Value → Result (List Object)
unfolding check_objects check_values
check_slice c (rows rs) = check_objects c (objects rs)
check_slice c (array vs) = check_values c (elements vs)
check_slice c _ = err (error "not a slice")

-- `NestedResources`: `none` where nothing is found.
unfoldable pub nested_resources :
    {A : Type 0} → Machinery → Codec A → Object → List String → Result (Option (List Object))
unfolding check_slice
nested_resources M c o path = elim (M.nested_field o path) [
  | found v ↦ do ms ← check_slice c v; ok (some ms)
  | missing ↦ ok none
  | invalid e ↦ err e
]

-- `path[:len(path)-1]` and `path[len(path)-1]`.
unfoldable pub split_last : List String → Option (List String × String)
split_last [] = none
split_last (k ∷ ks) = elim (split_last ks) [
  | none ↦ some ([], k)
  | some (front, last) ↦ some (k ∷ front, last)
]

-- `dest[key] = v` for the map `dest` that the path leads to; the write is seen from the root.
write_at : Object → List String → String → Value → Object
write_at o [] key v = insert key v o
write_at o (p ∷ ps) key v = elim (lookup p o) [
  | some (object f) ↦ insert p (object_of (write_at (entries f) ps key v)) o
  | _ ↦ o
]

-- The loop that makes the maps which are not there, and the write behind it. The keys already
-- walked go into the message.
create_at : Object → List String → List String → String → Value → Result Object
create_at o walked [] key v = ok (insert key v o)
create_at o walked (p ∷ ps) key v = elim (lookup p o) [
  | none ↦ do m ← create_at [] (walked ++ (p ∷ [])) ps key v; ok (insert p (object_of m) o)
  | some (object f) ↦ do
    m ← create_at (entries f) (walked ++ (p ∷ [])) ps key v
    ok (insert p (object_of m) o)
  | some _ ↦ err (errorf "Value already exists at path %v" walked)
]

set_in : Machinery → Object → List String → String → Value → Result Object
unfolding write_at create_at
set_in M o [] key v = ok (insert key v o)
set_in M o (p ∷ ps) key v = elim (M.nested_field o (p ∷ ps)) [
  | found (object f) ↦ ok (write_at o (p ∷ ps) key v)
  | found _ ↦ err (errorf "Value already exists at path %v" (p ∷ ps))
  | missing ↦ create_at o [] (p ∷ ps) key v
  | invalid e ↦ err e
]

-- `setSlice`. An empty path is an index out of range.
unfoldable pub set_slice : Machinery → Object → List Object → List String → Result Object
unfolding split_last set_in
set_slice M o ms path = elim (split_last path) [
  | none ↦ panic (error "index out of range")
  | some (front, key) ↦ set_in M o front key (rows_of ms)
]
