-- ===== src/Tests/BindingTests.antt =====
-- Annotations and the definitions made of them, with a package `jsonpath` that knows paths of keys;
-- and the metadata of a binding.
use service_binding_operator.Base.{
  ◌↔◌, String, ◌≡◌, refl, true, false, none, some, List, [], ◌∷◌, error, Result, ok, err, panic,
  if◌then◌else◌, ◌==◌, any,
}
use service_binding_operator.Base.Dict.{lookup, insert, merge}
use service_binding_operator.Base.Text.{strip_prefix, split, cut, count, join}
use service_binding_operator.Value.{text, Object, object_of, fields}
use service_binding_operator.Machinery.{Walk, walk, arrives}
use service_binding_operator.Binding.Jsonpath.{Jsonpath, Reflected, of_type}
use service_binding_operator.Binding.Model.{raw_keys}
use service_binding_operator.Binding.Model.Parsing.{raw_keys-join}
use service_binding_operator.Binding.Definition.{
  ResourceReader, SecretConfigMapReader, Definition, map_from_data_field,
}
use service_binding_operator.Binding.Annotation.{
  DefinitionBuilder, new_definition_builder, is_service_binding_annotation,
}
use service_binding_operator.Binding.Names.{IsBindingName, is_service_binding_annotation_lem}
use service_binding_operator.Binding.Spec.{SpecHandler, handle}
use service_binding_operator.Binding.Spec.Foreign.{handle_foreign}
use service_binding_operator.Apis.Common.{
  finalizer_name, maybe_add_finalizer, maybe_remove_finalizer,
  maybe_remove_finalizer-maybe_add_finalizer, maybe_add_finalizer_again, requester, set_requester,
  requester-set_requester,
}
use service_binding_operator.Tests.Cluster.{machinery}

-- A template is a path of keys; it parses where it stands in braces and begins with a dot.
abbrev parse : String → Result (List String)
parse path = elim (strip_prefix "{." path) [
  | none ↦ err (error "unrecognized character")
  | some rest ↦ ok (split "." (cut "}" rest).0)
]

abbrev look : Walk → Result (List (List Reflected))
look (arrives v) = ok ((of_type "interface {}" v ∷ []) ∷ [])
look _ = err (error "not found")

unfoldable pub jsonpath : Jsonpath
unfolding strip_prefix split cut walk fields
jsonpath = record {
  Template = List String;
  parse = parse;
  find_results = λ j u. look (walk (object_of u) j);
  print_results = λ j r. ok "";
}

abbrev secret : Object
secret = ("data", object_of (("password", text "cGFzcw==") ∷ [])) ∷ []

abbrev read_secret : ResourceReader
read_secret namespace name = ok secret

abbrev read_no_config_map : ResourceReader
read_no_config_map namespace name = err (error "not found")

abbrev builder : DefinitionBuilder
builder =
    new_definition_builder "service.binding/credentials"
      "path={.spec.secret},objectType=Secret,optional=true" read_no_config_map read_secret

abbrev reader : SecretConfigMapReader
reader = record { config_map_reader = read_no_config_map; secret_reader = read_secret }

abbrev definition : Definition
definition =
    map_from_data_field (some reader) "Secret" "credentials" ""
      (record { path = "{.spec.secret}"; optional = true })

abbrev service : Object
service = ("spec", object_of (("secret", text "db-secret") ∷ [])) ∷ []

is_service_binding_annotation_lem_example :
    (is_service_binding_annotation "service.binding/host" ≡ ok true)
    ↔ IsBindingName "service.binding/host"
is_service_binding_annotation_lem_example = is_service_binding_annotation_lem "service.binding/host"

maybe_remove_finalizer-maybe_add_finalizer_example :
    ((maybe_add_finalizer ("other" ∷ [])).1 ≡ true)
    × (maybe_remove_finalizer (maybe_add_finalizer ("other" ∷ [])).0 ≡ ("other" ∷ [], true))
unfolding any
maybe_remove_finalizer-maybe_add_finalizer_example =
    maybe_remove_finalizer-maybe_add_finalizer ("other" ∷ []) refl

maybe_add_finalizer_again_example :
    maybe_add_finalizer (maybe_add_finalizer ("other" ∷ [])).0
    ≡ ("other" ∷ finalizer_name ∷ [], false)
unfolding maybe_add_finalizer
maybe_add_finalizer_again_example = maybe_add_finalizer_again ("other" ∷ [])

abbrev user_text : String → String
user_text user = user

requester-set_requester_example :
    (requester user_text some (set_requester user_text some "alice" []) ≡ some "alice")
    × (lookup "note" (set_requester user_text some "alice" [])
        ≡ (if "servicebinding.io/requester" == "note" then some "alice" else none))
unfolding lookup
requester-set_requester_example = requester-set_requester user_text some "alice" [] "note" refl

abbrev handler : SpecHandler
handler = record {
  obj = service;
  annotation_key = "service.binding/credentials";
  annotation_value = "path={.spec.secret},objectType=Secret";
}

handle_foreign_example :
    handle jsonpath machinery read_no_config_map read_secret (record {
      obj = service;
      annotation_key = "example.com/host";
      annotation_value = "path={.spec.host}";
    })
    ≡ panic (error "nil pointer dereference")
unfolding is_service_binding_annotation
handle_foreign_example =
    handle_foreign jsonpath machinery read_no_config_map read_secret
      (record {
        obj = service;
        annotation_key = "example.com/host";
        annotation_value = "path={.spec.host}";
      })
      refl

raw_keys-join_example :
    raw_keys "path={.status.data},objectType=Secret,optional=true"
    ≡ ("path", "{.status.data}") ∷ ("objectType", "Secret") ∷ ("optional", "true") ∷ []
unfolding any count merge insert join
raw_keys-join_example =
    raw_keys-join ("path", "{.status.data}") (("objectType", "Secret") ∷ ("optional", "true") ∷ [])
      (refl, (refl, (refl, tt))) (refl, (refl, (refl, tt)))
