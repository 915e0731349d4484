-- ===== src/Tests/MappingTests.antt =====
-- A mapping of one template, with a parser that takes a path for the name of a field.
use service_binding_operator.Base.{refl, [], ◌∷◌}
use service_binding_operator.Base.Dict.{lookup}
use service_binding_operator.Mapping.{
  field_node, list_node, no_nodes, node, Parser, parsed, Template,
}
use service_binding_operator.Mapping.Validation.{
  Mapping, validate, validate_versions, version_errors, validate_template, validate_containers,
  validate_container, validate_restricted_path, restricted_errors, verify_errors, path_errors,
}
use service_binding_operator.Mapping.Accepted.{AllUsable, from_template-validate}

abbrev parse : Parser
parse path = parsed (list_node (node (field_node path) no_nodes))

abbrev template : Template
template = record {
  version = "*";
  annotations = "";
  containers =
      record { path = ".spec.containers[*]"; name = ".id"; env = ""; volume_mounts = "" } ∷ [];
  volumes = ".spec.volumes";
}

abbrev mapping : Mapping
mapping = record { name = "jobs.batch"; versions = template ∷ [] }

from_template-validate_example : AllUsable parse (template ∷ [])
unfolding validate validate_versions version_errors lookup validate_template validate_containers
    validate_container validate_restricted_path restricted_errors verify_errors path_errors
from_template-validate_example = from_template-validate parse mapping refl
