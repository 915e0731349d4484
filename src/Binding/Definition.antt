-- ===== src/Binding/Definition.antt =====
-- The binding definitions and `Apply` (pkg/binding/definition.go).
use service_binding_operator.Base.{
  String, Bool, false, ◌&&◌, not, Option, none, some, List, [], ◌∷◌, ◌++◌, Result, ok, error, ◌>>=◌,
  or_err, ◌==◌, if◌then◌else◌,
}
use service_binding_operator.Base.Dict.{Dict, lookup, insert, merge}
use service_binding_operator.Base.Base64.{decode_string}
use service_binding_operator.Value.{
  Value, null, text, object, array, Items, nil, item, Object, entries,
}
use service_binding_operator.Value.Print.{sprint}
use service_binding_operator.Binding.Jsonpath.{Reflected, interface}
use service_binding_operator.Binding.Model.{secret_object_type}

-- `UnstructuredResourceReader`: from a namespace and a name.
abbrev pub ResourceReader : Type 0
ResourceReader = String → String → Result Object

pub record SecretConfigMapReader : Type 0 where
  pub config_map_reader : ResourceReader
  pub secret_reader : ResourceReader

-- The fields `path` and `optional` that every definition has.
pub record Location : Type 0 where
  pub path : String
  pub optional : Bool

pub data Definition : Type 0 where
  string_definition : (output_name value : String) → Location → Definition
  string_from_data_field :
      Option SecretConfigMapReader
      → (object_type output_name : String) → Location
      → (source_key : String) → Definition
  map_from_data_field :
      Option SecretConfigMapReader
      → (object_type output_name source_value : String) → Location
      → Definition
  string_of_map : (output_name : String) → Location → Definition
  slice_of_maps_from_path :
      (output_name : String) → Location → (source_key source_value : String) → Definition
  slice_of_strings_from_path :
      (output_name : String) → Location → (source_value : String) → Definition

abbrev pub location : Definition → Location
location (string_definition o v l) = l
location (string_from_data_field r t o l k) = l
location (map_from_data_field r t o v l) = l
location (string_of_map o l) = l
location (slice_of_maps_from_path o l k v) = l
location (slice_of_strings_from_path o l v) = l

-- `GetPath`
abbrev pub get_path : Definition → String
get_path d = (location d).path

-- What a `Value` holds: nothing, a `map[string]interface{}`, or a `map[string]string`.
pub data Payload : Type 0 where
  nothing : Payload
  values : Object → Payload
  texts : Dict String → Payload

-- `NonExistingOptional`, the same method for every definition.
unfoldable pub non_existing_optional : Definition → Payload → Bool
non_existing_optional d nothing = (location d).optional
non_existing_optional d _ = false

-- `collectSourceValuesWithKey`, on a value and on the elements of a slice. A missing key reads as
-- `nil`.
abbrev value_at : String → Object → Value
value_at k m = elim (lookup k m) [ none ↦ null | some v ↦ v ]

unfoldable mutual
  unfolding lookup insert merge sprint

  pub collect_source_values_with_key : Value → (source_value source_key : String) → Object
  collect_source_values_with_key (object f) source_value source_key =
      (sprint (value_at source_key (entries f)), value_at source_value (entries f)) ∷ []
  collect_source_values_with_key (array vs) source_value source_key =
      collect_items_with_key vs source_value source_key []
  collect_source_values_with_key _ source_value source_key = []

  pub collect_items_with_key : Items → (source_value source_key : String) → Object → Object
  collect_items_with_key nil source_value source_key res = res
  collect_items_with_key (item v vs) source_value source_key res =
      collect_items_with_key vs source_value source_key
        (merge res (collect_source_values_with_key v source_value source_key))

unfoldable mutual
  unfolding lookup

  pub collect_source_values : Value → (source_value : String) → List Value
  collect_source_values (object f) source_value =
      if source_value == "" then [] else value_at source_value (entries f) ∷ []
  collect_source_values (array vs) source_value = collect_items vs source_value
  collect_source_values (text s) source_value = if source_value == "" then text s ∷ [] else []
  collect_source_values _ source_value = []

  pub collect_items : Items → (source_value : String) → List Value
  collect_items nil source_value = []
  collect_items (item v vs) source_value =
      collect_source_values v source_value ++ collect_items vs source_value

-- A slice of values as a value.
unfoldable pub items_of : List Value → Items
items_of [] = nil
items_of (v ∷ vs) = item v (items_of vs)

-- The loops over the results of the path.
unfoldable pub collect_maps : List Reflected → (source_value source_key : String) → Object → Object
unfolding collect_source_values_with_key
collect_maps [] source_value source_key res = res
collect_maps (r ∷ rs) source_value source_key res =
    collect_maps rs source_value source_key
      (merge res (collect_source_values_with_key (interface r) source_value source_key))

unfoldable pub collect_strings : List Reflected → (source_value : String) → List Value
unfolding collect_source_values
collect_strings [] source_value = []
collect_strings (r ∷ rs) source_value =
    collect_source_values (interface r) source_value ++ collect_strings rs source_value

-- `base64.StdEncoding.DecodeString` with its error.
abbrev pub decode : String → Result String
decode s = or_err (decode_string s) (error "illegal base64 data")

-- The data of a secret are base64 texts, those of a config map are plain.
abbrev pub decode_data : String → String → Result String
decode_data object_type v = if object_type == secret_object_type then decode v else ok v

-- The loop of `mapFromDataFieldDefinition.Apply` over the data.
unfoldable pub collect_data :
    (object_type output_name source_value : String)
    → Dict String
    → Dict String
    → Result (Dict String)
unfolding insert
collect_data object_type output_name source_value [] out = ok out
collect_data object_type output_name source_value ((k, v) ∷ data') out =
    let rest = collect_data object_type output_name source_value data' in
    if not (source_value == "") && not (k == source_value) then rest out else do
      n ← decode_data object_type v
      rest (
          insert (if not (source_value == "") && not (output_name == "") then output_name else k) n
            out)
