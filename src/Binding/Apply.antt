-- ===== src/Binding/Apply.antt =====
-- The methods `Apply` of the binding definitions (pkg/binding/definition.go).
use service_binding_operator.Base.{
  String, Option, none, some, List, [], ◌∷◌, Result, ok, err, panic, error, errorf, ◌>>=◌, ◌==◌,
  if◌then◌else◌,
}
use service_binding_operator.Value.{text, object, array, Object, object_of, entries}
use service_binding_operator.Value.Print.{sprint}
use service_binding_operator.Machinery.{Machinery, Nested, found, missing, invalid}
use service_binding_operator.Binding.Jsonpath.{
  Jsonpath, Reflected, interface, string, get_values_by_json_path,
}
use service_binding_operator.Binding.Model.{secret_object_type, config_map_object_type}
use service_binding_operator.Binding.Definition.{
  SecretConfigMapReader, Location, Definition, string_definition, string_from_data_field,
  map_from_data_field, string_of_map, slice_of_maps_from_path, slice_of_strings_from_path, Payload,
  nothing, values, texts, collect_maps, collect_strings, items_of, decode_data, collect_data,
}

-- `if len(val) != 1 { return an error }`
unfoldable pub exactly_one {ℓ} :
    {A : Type ℓ} → String → List Reflected → (Reflected → Result A) → Result A
exactly_one path (r ∷ []) k = k r
exactly_one path _ k =
    err (errorf "only one value should be returned for %v but we got %v" (path ∷ []))

-- `v, ok, err := Nested…(…)`, then an error, or `not found`, or the value.
unfoldable pub or_not_found {ℓ} : {A : Type ℓ} → Nested A → Result A
or_not_found (found a) = ok a
or_not_found missing = err (error "not found")
or_not_found (invalid e) = err e

module _ (J : Jsonpath) (M : Machinery) where
  -- The values at the path; where they cannot be had, an optional definition gives nothing.
  unfoldable pub with_values :
      Location → Object → (List Reflected → Result Payload) → Result Payload
  with_values l u k = elim (get_values_by_json_path J u l.path) [
    | ok val ↦ k val
    | err e ↦ if l.optional then ok nothing else err e
    | panic e ↦ panic e
  ]

  -- The secret or the config map of that name in the namespace of the service. For any other type
  -- the object stays nil, and its first use is a panic.
  unfoldable pub read_other : SecretConfigMapReader → String → Object → String → Result Object
  read_other reader object_type u name =
      if object_type == secret_object_type
      then reader.secret_reader (M.get_namespace u) name
      else if object_type == config_map_object_type
      then reader.config_map_reader (M.get_namespace u) name
      else panic (error "nil pointer dereference")

  unfoldable pub apply_string : (output_name value : String) → Location → Object → Result Payload
  unfolding with_values exactly_one
  apply_string output_name value l u =
      if output_name == ""
      then err (
          error
            "cannot use generic service.binding annotation for string elements, need to specify binding key like service.binding/foo")
      else if value == ""
      then with_values l u
          (λ val. exactly_one l.path val (λ r. ok (values ((output_name, interface r) ∷ []))))
      else ok (values ((output_name, text value) ∷ []))

  unfoldable pub apply_string_from_data_field :
      Option SecretConfigMapReader
      → (object_type : String) → Location
      → (source_key : String) → Object
      → Result Payload
  unfolding with_values exactly_one read_other or_not_found
  apply_string_from_data_field none object_type l source_key u =
      err (error "kubeClient required for this functionality")
  apply_string_from_data_field (some reader) object_type l source_key u = with_values l u λ res.
      exactly_one l.path res λ r. do
        other ← read_other reader object_type u (string r)
        val ← or_not_found (M.nested_string other ("data" ∷ source_key ∷ []))
        n ← decode_data object_type val
        ok (values (("", text n) ∷ []))

  unfoldable pub apply_map_from_data_field :
      Option SecretConfigMapReader
      → (object_type output_name source_value : String) → Location
      → Object
      → Result Payload
  unfolding with_values exactly_one read_other or_not_found collect_data
  apply_map_from_data_field none object_type output_name source_value l u =
      err (error "kubeClient required for this functionality")
  apply_map_from_data_field (some reader) object_type output_name source_value l u =
      with_values l u λ res. exactly_one l.path res λ r. do
        other ← read_other reader object_type u (sprint (interface r))
        val ← or_not_found (M.nested_string_map other ("data" ∷ []))
        out ← collect_data object_type output_name source_value val []
        ok (texts out)

  unfoldable pub apply_string_of_map : (output_name : String) → Location → Object → Result Payload
  unfolding with_values exactly_one
  apply_string_of_map output_name l u = with_values l u λ val. exactly_one l.path val λ r.
      elim (interface r) [
        | object f ↦
            ok (values (if output_name == "" then entries f else (output_name, object f) ∷ []))
        | _ ↦ err (errorf "returned value for %v should be map, but we got %v" (l.path ∷ []))
      ]

  unfoldable pub apply_slice_of_maps :
      (output_name : String)
      → Location
      → (source_key source_value : String) → Object
      → Result Payload
  unfolding with_values collect_maps
  apply_slice_of_maps output_name l source_key source_value u = with_values l u λ val.
      let res = collect_maps val source_value source_key [] in
      ok (values (if output_name == "" then res else (output_name, object_of res) ∷ []))

  unfoldable pub apply_slice_of_strings :
      (output_name : String) → Location → (source_value : String) → Object → Result Payload
  unfolding with_values collect_strings items_of
  apply_slice_of_strings output_name l source_value u =
      with_values l u
        λ val. ok (values ((output_name, array (items_of (collect_strings val source_value))) ∷ []))

  unfoldable pub apply : Definition → Object → Result Payload
  unfolding apply_string apply_string_from_data_field apply_map_from_data_field apply_string_of_map
      apply_slice_of_maps apply_slice_of_strings
  apply (string_definition o v l) u = apply_string o v l u
  apply (string_from_data_field r t o l k) u = apply_string_from_data_field r t l k u
  apply (map_from_data_field r t o v l) u = apply_map_from_data_field r t o v l u
  apply (string_of_map o l) u = apply_string_of_map o l u
  apply (slice_of_maps_from_path o l k v) u = apply_slice_of_maps o l k v u
  apply (slice_of_strings_from_path o l v) u = apply_slice_of_strings o l v u
