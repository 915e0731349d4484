-- ===== src/Binding/Spec/Foreign.antt =====
-- Panics of the handler of an annotation.
use service_binding_operator.Base.{◌≡◌, ap, false, Option, none, Result, ok, panic, error, ◌>>=◌}
use service_binding_operator.Base.Dict.{Dict}
use service_binding_operator.Value.{Object}
use service_binding_operator.Machinery.{Machinery}
use service_binding_operator.Binding.Jsonpath.{Jsonpath}
use service_binding_operator.Binding.Definition.{ResourceReader, Definition}
use service_binding_operator.Binding.Model.{Model}
use service_binding_operator.Binding.Annotation.{
  build, new_definition_builder, is_service_binding_annotation, DefinitionBuilder,
}
use service_binding_operator.Binding.Spec.{SpecHandler, handle, apply_built, data_of}

build_foreign :
    (b : DefinitionBuilder) → is_service_binding_annotation b.name ≡ ok false → build b ≡ ok none
unfolding build
build_foreign b h = rw (build, h)

module _ (J : Jsonpath) (M : Machinery) (config_maps secrets : ResourceReader) where
  builder : SpecHandler → DefinitionBuilder
  builder s = new_definition_builder s.annotation_key s.annotation_value config_maps secrets

  rest : SpecHandler → Option Definition → Result Object
  rest s d = apply_built J M config_maps secrets d s.obj >>= λ v. ok (data_of v)

  -- `Handle` of an annotation for which `IsServiceBindingAnnotation` gives false and no error panics.
  pub handle_foreign :
      (s : SpecHandler)
      → is_service_binding_annotation s.annotation_key ≡ ok false
      → handle J M config_maps secrets s ≡ panic (error "nil pointer dereference")
  unfolding handle new_definition_builder builder rest
  handle_foreign s foreign =
      ap (λ (d : Result (Option Definition)). d >>= rest s) (build_foreign (builder s) foreign)
