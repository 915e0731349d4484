-- ===== src/Handlers/Collect/Bindable.antt =====
-- The resources that a service may own and binding takes data from (`bindableResources` of
-- pkg/reconcile/pipeline/handler/collect/impl.go).
use service_binding_operator.Base.{
  String, Bool, true, false, ◌&&◌, Option, none, some, List, [], ◌∷◌, Error, Result, ok, err, panic,
  error, errorf, wrap, ◌==◌, if◌then◌else◌, any,
}
use service_binding_operator.Base
use service_binding_operator.Base.Dict.{Dict, insert}
use service_binding_operator.Value.{Value, text, object, Fields, end, field, Object, object_of}
use service_binding_operator.Value.Print.{sprint}
use service_binding_operator.Machinery.{GroupVersionKind}
use service_binding_operator.Binding.Definition.{
  SecretConfigMapReader, Definition, string_from_data_field, map_from_data_field, decode,
}

-- `pathMapping`
pub record PathMapping : Type 0 where
  pub input : String
  pub transform : Option (Value → Result Value)
  pub output : String

-- The loop of the transformation of a secret's data.
unfoldable pub decode_fields : Fields → Object → Result Value
unfolding sprint insert
decode_fields end result = ok (object_of result)
decode_fields (field k v rest) result =
    Base.◌>>=◌ (decode (sprint v)) λ b. decode_fields rest (insert k (text b) result)

unfoldable pub decode_secret : Value → Result Value
unfolding decode_fields
decode_secret (object f) = decode_fields f []
decode_secret _ = err (error "data is not map")

-- `bindableResources`
unfoldable pub bindable_resource : GroupVersionKind → Option PathMapping
unfolding decode_secret
bindable_resource g =
    if g.group == "" && (g.version == "v1" && g.kind == "ConfigMap")
    then some (record { input = "data"; transform = none; output = "" })
    else if g.group == "" && (g.version == "v1" && g.kind == "Secret")
    then some (record { input = "data"; transform = some decode_secret; output = "" })
    else if g.group == "" && (g.version == "v1" && g.kind == "Service")
    then some (record { input = "spec.clusterIP"; transform = none; output = "clusterIP" })
    else if g.group == "route.openshift.io" && (g.version == "v1" && g.kind == "Route")
    then some (record { input = "spec.host"; transform = none; output = "host" })
    else none

abbrev pub apply_transform : Option (Value → Result Value) → Value → Result Value
apply_transform none v = ok v
apply_transform (some f) v = f v

abbrev pub text_fields : Dict String → Fields
text_fields [] = end
text_fields ((k, v) ∷ d) = field k (text v) (text_fields d)

-- A definition keeps the context that its readers read.
unfoldable pub with_reader : SecretConfigMapReader → Definition → Definition
with_reader r (string_from_data_field (some _) t o l k) = string_from_data_field (some r) t o l k
with_reader r (map_from_data_field (some _) t o v l) = map_from_data_field (some r) t o v l
with_reader r d = d
