-- ===== src/Binding/Jsonpath.antt =====
-- `getValuesByJSONPath` (pkg/binding/jsonpath.go) over the package `jsonpath` of client-go, and
-- what the program asks of the reflected values that it returns.
use service_binding_operator.Base.{String, ◌<>◌, List, [], ◌∷◌, Result, ok, panic, error, ◌>>=◌}
use service_binding_operator.Value.{Value, text, Object}

-- A `reflect.Value`: one of kind string, or another with the name of its type. A value that was
-- read out of a `map[string]interface{}` is of kind interface, whatever it holds.
pub data Reflected : Type 0 where
  of_kind_string : String → Reflected
  of_type : String → Value → Reflected

-- `v.Interface()`
abbrev pub interface : Reflected → Value
interface (of_kind_string s) = text s
interface (of_type name v) = v

-- `v.String()`
abbrev pub string : Reflected → String
string (of_kind_string s) = s
string (of_type name v) = "<" <> (name <> " Value>")

-- The package `jsonpath`: a parsed template, its results, and their text.
pub record Jsonpath : Type 1 where
  pub Template : Type 0
  pub parse : String → Result Template
  pub find_results : Template → Object → Result (List (List Reflected))
  pub print_results : Template → List Reflected → Result String

module _ (J : Jsonpath) where
  -- The loop that writes every result to one text.
  unfoldable pub print_all : J.Template → List (List Reflected) → Result String
  print_all j [] = ok ""
  print_all j (r ∷ rs) = do s ← J.print_results j r; rest ← print_all j rs; ok (s <> rest)

  -- `result[0]`, or the texts of several results as one.
  unfoldable pub one_result : J.Template → List (List Reflected) → Result (List Reflected)
  unfolding print_all
  one_result j [] = panic (error "index out of range")
  one_result j (r ∷ []) = ok r
  one_result j (r ∷ (r' ∷ rs)) = do s ← print_all j (r ∷ (r' ∷ rs)); ok (of_kind_string s ∷ [])

  unfoldable pub get_values_by_json_path : Object → String → Result (List Reflected)
  unfolding one_result
  get_values_by_json_path obj path = do
    j ← J.parse path
    result ← J.find_results j obj
    one_result j result
