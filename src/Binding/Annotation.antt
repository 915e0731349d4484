-- ===== src/Binding/Annotation.antt =====
-- From an annotation to a definition (pkg/binding/annotationmapper.go).
use service_binding_operator.Base.{
  String, Bool, true, false, ◌&&◌, ◌||◌, not, Option, none, some, [], ◌∷◌, Result, ok, err, panic,
  Error, errorf, wrap, ◌>>=◌, or_err, ◌==◌, if◌then◌else◌,
}
use service_binding_operator.Base.Text.{cut, has_prefix}
use service_binding_operator.Binding.Model.{
  Model, new_model, is_string_element_type, is_string_object_type, is_map_element_type,
  is_slice_of_maps_element_type, is_slice_of_strings_element_type, has_data_field,
}
use service_binding_operator.Binding.Definition.{
  ResourceReader, SecretConfigMapReader, Location, Definition, string_definition,
  string_from_data_field, map_from_data_field, string_of_map, slice_of_maps_from_path,
  slice_of_strings_from_path,
}

abbrev pub annotation_prefix : String
annotation_prefix = "service.binding"

abbrev pub provisioned_service_annotation_key : String
provisioned_service_annotation_key = "servicebinding.io/provisioned-service"

pub record DefinitionBuilder : Type 0 where
  pub reader : SecretConfigMapReader
  pub name : String
  pub value : String

unfoldable pub new_definition_builder :
    (annotation_name annotation_value : String)
    → (config_map_reader secret_reader : ResourceReader) → DefinitionBuilder
new_definition_builder name value config_map_reader secret_reader = record {
  reader = record { config_map_reader = config_map_reader; secret_reader = secret_reader };
  name = name;
  value = value;
}

unfoldable pub is_service_binding_annotation : String → Result Bool
unfolding has_prefix
is_service_binding_annotation key =
    if key == provisioned_service_annotation_key
    then ok false
    else if key == annotation_prefix
    then ok true
    else if has_prefix key annotation_prefix
    then (if has_prefix key "service.binding/"
        then ok true
        else err (errorf "can't process annotation with name %q" (key ∷ [])))
    else ok false

-- What stands behind the first slash of the name, if anything does.
unfoldable pub output_name : DefinitionBuilder → String
unfolding cut
output_name b = elim (cut "/" b.name).1 [ none ↦ "" | some behind ↦ behind ]

-- The cases of `Build`, in their order; `none` where none of them applies.
unfoldable pub definition_of : SecretConfigMapReader → String → Model → Option Definition
definition_of reader output m =
    let l : Location = record { path = m.path; optional = m.optional } in
    if is_string_element_type m && is_string_object_type m || not (m.value == "")
    then some (string_definition output m.value l)
    else if is_string_element_type m && has_data_field m
    then some (string_from_data_field (some reader) m.object_type output l m.source_key)
    else if is_map_element_type m && has_data_field m
    then some (map_from_data_field (some reader) m.object_type output m.source_value l)
    else if is_map_element_type m && is_string_object_type m
    then some (string_of_map output l)
    else if is_slice_of_maps_element_type m
    then some (slice_of_maps_from_path output l m.source_key m.source_value)
    else if is_slice_of_strings_element_type m
    then some (slice_of_strings_from_path output l m.source_value)
    else none

-- An error is put into the context of the call.
abbrev pub with_context {ℓ} : {A : Type ℓ} → (Error → Error) → Result A → Result A
with_context f (ok a) = ok a
with_context f (err e) = err (f e)
with_context f (panic e) = panic e

-- The definition for an annotation that is one of binding.
unfoldable pub build_definition : DefinitionBuilder → Result (Option Definition)
unfolding output_name new_model definition_of
build_definition b = do
  mod' ←
      with_context
        (wrap "could not create binding model for annotation key %s and value %s: %w"
          (b.name ∷ b.value ∷ []))
        (new_model b.value)
  d ←
      or_err (definition_of b.reader (output_name b) mod')
        (errorf "Annotation %s: %s not implemented!" (b.name ∷ b.value ∷ []))
  ok (some d)

-- `Build`: `ok none` is the nil definition without an error, for an annotation of another kind.
unfoldable pub build : DefinitionBuilder → Result (Option Definition)
build b = do
  is_binding ← is_service_binding_annotation b.name
  if is_binding then build_definition b else ok none
