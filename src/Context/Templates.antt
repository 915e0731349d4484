-- ===== src/Context/Templates.antt =====
-- The choice of the workload mapping (`WorkloadResourceTemplate` of
-- pkg/reconcile/pipeline/context/impl.go). The JSON decoder, the converter and the parser of
-- package `jsonpath` are parameters.
pub mod Chosen
use service_binding_operator.Base.{
  String, ◌<>◌, ◌≡◌, refl, Bool, true, false, not, Option, none, some, List, [], ◌∷◌, ◌++◌, Error,
  errorf, Result, ok, err, panic, ◌>>=◌, ◌==◌, is_empty, any, if◌then◌else◌,
}
use service_binding_operator.Base
use service_binding_operator.Base.Dict.{lookup}
use service_binding_operator.Value.{Object}
use service_binding_operator.Mapping.{
  Parser, Template, ContainerTemplate, WorkloadMapping, from_template,
}
use service_binding_operator.Mapping.Validation.{GroupVersionResource, Mapping}
use service_binding_operator.Context.{Meta, mapping_annotation_key}
use service_binding_operator.Context.Client.{
  Client, UserInfo, Fetched, fetched, absent, failed, can_perform,
}

abbrev default_container : String → ContainerTemplate
default_container path = record {
  path = path;
  name = ".name";
  env = ".env";
  volume_mounts = ".volumeMounts";
}

abbrev pub default_containers : List ContainerTemplate
default_containers =
    default_container ".spec.template.spec.containers[*]"
    ∷ default_container ".spec.template.spec.initContainers[*]"
    ∷ []

-- `DefaultTemplate`
abbrev pub default_template : Template
default_template = record {
  version = "*";
  annotations = ".spec.template.spec.annotations";
  containers = default_containers;
  volumes = ".spec.template.spec.volumes";
}

abbrev pub mapping_resource : GroupVersionResource
mapping_resource = record {
  group = "servicebinding.io";
  version = "v1beta1";
  resource = "clusterworkloadresourcemappings";
}

-- `gvr.GroupResource().String()`
abbrev pub group_resource : GroupVersionResource → String
group_resource gvr = if gvr.group == "" then gvr.resource else gvr.resource <> ("." <> gvr.group)

-- The loop over the versions: the first template of that version, or else the last one for any
-- version, or else the one given.
unfoldable pub choose : (version : String) → Template → List Template → Template
choose version wildcard [] = wildcard
choose version wildcard (t ∷ ts) =
    let rest = choose version (if t.version == "*" then t else wildcard) ts in
    if t.version == version then t else rest

abbrev pub with_containers : Template → Template
with_containers t =
    if is_empty t.containers then record t { containers = default_containers } else t

-- The container of a path that the binding gives is added where some container has another path.
unfoldable pub add_container : (container_path : String) → Template → Template
unfolding any
add_container container_path t =
    let path = "." <> (container_path <> "[*]") in
    if container_path == ""
    then t
    else if any (λ c. not (path == c.path)) t.containers
    then record t {
      containers =
          t.containers ++ (record { path = path; name = ""; env = ""; volume_mounts = "" } ∷ []);
    }
    else t

-- The template from the versions that a mapping has.
unfoldable pub template_for : (version container_path : String) → List Template → Template
unfolding choose add_container
template_for version container_path versions =
    add_container container_path (with_containers (choose version default_template versions))

module _ (C : Client) (parse : Parser) (unmarshal : String → Result Mapping)
    (from_unstructured : Object → Result Mapping) where
  open C use {World, get}

  -- The versions of the mapping of the cluster, where none is there if it is not found.
  abbrev versions_of : Fetched Object → Result (List Template)
  versions_of (fetched o) = from_unstructured o >>= λ m. ok m.versions
  versions_of (absent e) = ok []
  versions_of (failed e) = err e

  -- The mapping that the annotation of the binding holds comes first.
  unfoldable pub mapping_versions : Meta → GroupVersionResource → World → Result (List Template)
  unfolding lookup
  mapping_versions m gvr w = elim (lookup mapping_annotation_key m.annotations) [
    | some text ↦ unmarshal text >>= λ mapping. ok mapping.versions
    | none ↦ versions_of (get mapping_resource "" (group_resource gvr) w)
  ]

  unfoldable pub workload_resource_template :
      Option UserInfo
      → Meta
      → (known : Option WorkloadMapping) → GroupVersionResource
      → (container_path : String) → World
      → Result WorkloadMapping
  unfolding can_perform mapping_versions template_for from_template
  workload_resource_template user m (some known) gvr container_path w = ok known
  workload_resource_template user m none gvr container_path w =
      if can_perform C user mapping_resource (group_resource gvr) "" "get" w
      then (mapping_versions m gvr w >>= λ versions.
          from_template parse (template_for gvr.version container_path versions))
      else err (
          errorf "Unable to retrieve ClusterWorkloadResourceMapping for type %q"
            (gvr.group ∷ gvr.version ∷ gvr.resource ∷ []))
