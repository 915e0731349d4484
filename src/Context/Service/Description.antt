-- ===== src/Context/Service/Description.antt =====
-- The custom resource definition of a service: whether it is bindable, and the annotations that the
-- registry knows (pkg/reconcile/pipeline/context/service/service.go).
use service_binding_operator.Base.{
  String, Bool, true, false, Option, none, some, List, [], ◌∷◌, Result, ok, err, panic, error,
  ◌>>=◌, ◌==◌, if◌then◌else◌,
}
use service_binding_operator.Base.Dict.{Dict, merge}
use service_binding_operator.Value.{Value, text, Object}
use service_binding_operator.Machinery.{Machinery, found}
use service_binding_operator.Binding.Annotation.{is_service_binding_annotation}
use service_binding_operator.Binding.Jsonpath.{
  Jsonpath, Reflected, interface, get_values_by_json_path,
}
use service_binding_operator.Binding.Registry.{Registry, get_annotations}
use service_binding_operator.Mapping.Validation.{GroupVersionResource}
use service_binding_operator.Context.Lookup.{RestMapper}
use service_binding_operator.Context.Client.{Client}
use service_binding_operator.Context.Service.{Service, custom_resource_definition, Accessors}

-- The path of the type of the secret's name in the schemas.
abbrev schema_path : String
schema_path = "{..schema.openAPIV3Schema.properties.status.properties.binding.properties.name.type}"

-- Some key is one of binding; a key that is refused is passed over.
unfoldable pub names_binding : Dict String → Bool
unfolding is_service_binding_annotation
names_binding [] = false
names_binding ((k, v) ∷ anns) =
    let rest = names_binding anns in
    elim (is_service_binding_annotation k) [ ok b ↦ if b then true else rest | _ ↦ rest ]

-- `value[0].Interface().(string) == "string"`, where a value of another type is a panic.
abbrev is_string_type : Value → Result Bool
is_string_type (text s) = ok (s == "string")
is_string_type _ = panic (error "interface conversion: interface {} is not string")

-- Whether the schemas have a name of a secret in the status.
unfoldable pub has_secret_name : Result (List Reflected) → Result Bool
has_secret_name (ok []) = ok false
has_secret_name (ok (r ∷ rs)) = is_string_type (interface r)
has_secret_name (err e) = ok false
has_secret_name (panic e) = panic e

module _ (J : Jsonpath) (M : Machinery) (set_annotations : Dict String → Object → Object) where
  unfoldable pub is_bindable : Object → Result Bool
  unfolding has_secret_name names_binding get_values_by_json_path
  is_bindable crd = do
    named ← has_secret_name (get_values_by_json_path J crd schema_path)
    ok (if named then true else names_binding (M.get_annotations crd))

  abbrev crd_kind : Object → String
  crd_kind crd = elim (M.nested_string crd ("spec" ∷ "names" ∷ "kind" ∷ [])) [
    | found val ↦ val
    | _ ↦ ""
  ]

  abbrev annotated : Option (Dict String) → Object → Object
  annotated none crd = crd
  annotated (some anns) crd = set_annotations (merge (M.get_annotations crd) anns) crd

  -- `Resource` of the definition: what it gives is what the definition is from then on.
  unfoldable pub crd_resource :
      Registry → (service_gvr : GroupVersionResource) → Object → Result Object
  unfolding is_bindable get_annotations merge
  crd_resource registry gvr crd = do
    bindable ← is_bindable crd
    ok (
        if bindable
        then crd
        else annotated
            (get_annotations
              (record { group = gvr.group; version = gvr.version; kind = crd_kind crd }) registry)
            crd)

  abbrev bindable_if : Option Object → Result Bool
  bindable_if none = panic (error "nil pointer dereference")
  bindable_if (some crd) = is_bindable crd

  module _ (C : Client) (R : RestMapper) (U : Accessors) where
    -- `IsBindable` of the service, which uses a definition that may be nil.
    unfoldable pub service_is_bindable : Service C.World → C.World → Result Bool × Service C.World
    unfolding custom_resource_definition
    service_is_bindable s w =
        let (r, s') = custom_resource_definition C R M U s w in
        (r >>= λ there. bindable_if (if there then s'.crd else none), s')
