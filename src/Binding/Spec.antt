-- ===== src/Binding/Spec.antt =====
-- The handler of one annotation (pkg/binding/spec.go). The readers of the cluster are parameters.
pub mod Foreign
use service_binding_operator.Base.{
  String, Option, none, some, List, [], ◌∷◌, map, Result, ok, err, panic, error, ◌>>=◌,
}
use service_binding_operator.Base.Dict.{Dict, merge}
use service_binding_operator.Value.{Value, text, Object}
use service_binding_operator.Machinery.{Machinery}
use service_binding_operator.Binding.Jsonpath.{Jsonpath}
use service_binding_operator.Binding.Definition.{
  ResourceReader, Definition, Payload, nothing, values, texts,
}
use service_binding_operator.Binding.Apply.{apply}
use service_binding_operator.Binding.Annotation.{build, new_definition_builder}

pub record SpecHandler : Type 0 where
  pub obj : Object
  pub annotation_key : String
  pub annotation_value : String

-- `out[k] = v` for every entry of a map of texts, and of a map of values.
unfoldable pub data_of : Payload → Object
unfolding merge
data_of nothing = []
data_of (values o) = merge [] o
data_of (texts d) = merge [] (map (λ (e : String × String). (e.0, text e.1)) d)

module _ (J : Jsonpath) (M : Machinery) (config_maps_reader secrets_reader : ResourceReader) where
  -- `d.Apply(&s.obj)`, where a nil definition is a nil dereference.
  abbrev apply_built : Option Definition → Object → Result Payload
  apply_built none u = panic (error "nil pointer dereference")
  apply_built (some d) u = apply J M d u

  unfoldable pub handle : SpecHandler → Result Object
  handle s = do
    d ← build (
        new_definition_builder s.annotation_key s.annotation_value config_maps_reader
          secrets_reader)
    v ← apply_built d s.obj
    ok (data_of v)
