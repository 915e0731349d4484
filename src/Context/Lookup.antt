-- ===== src/Context/Lookup.antt =====
-- From a reference to the resource that it names (pkg/client/kubernetes/resource_lookup.go, and the
-- methods of the references in apis/binding/v1alpha1/servicebinding_types.go and
-- apis/spec/v1beta1/servicebinding_types.go). The REST mapper is a parameter.
use service_binding_operator.Base.{
  String, Result, ok, err, panic, error, ◌>>=◌, ◌==◌, if◌then◌else◌,
}
use service_binding_operator.Machinery.{GroupVersionKind}
use service_binding_operator.Mapping.Validation.{GroupVersionResource}
use service_binding_operator.Context.{Ref, ServiceReference, WorkloadReference}

-- `Referable`: the references of the two kinds of bindings.
pub data Referable : Type 0 where
  by_ref : Ref → Referable
  by_service : ServiceReference → Referable
  by_workload : WorkloadReference → Referable

-- `meta.RESTMapper`, and the parser of `TypeMeta.GroupVersionKind`
pub record RestMapper : Type 0 where
  pub rest_mapping : GroupVersionKind → Result GroupVersionResource
  pub from_api_version_and_kind : (api_version kind : String) → GroupVersionKind

unfoldable pub group_version_resource : Referable → Result GroupVersionResource
group_version_resource (by_ref r) =
    if r.resource == ""
    then err (error "Resource undefined")
    else ok (record { group = r.group; version = r.version; resource = r.resource })
group_version_resource (by_service r) = err (error "Resource undefined")
group_version_resource (by_workload r) = err (error "Resource undefined")

module _ (R : RestMapper) where
  unfoldable pub group_version_kind : Referable → Result GroupVersionKind
  group_version_kind (by_ref r) =
      if r.kind == ""
      then err (error "Kind undefined")
      else ok (record { group = r.group; version = r.version; kind = r.kind })
  group_version_kind (by_service r) = ok (R.from_api_version_and_kind r.api_version r.kind)
  group_version_kind (by_workload r) = ok (R.from_api_version_and_kind r.api_version r.kind)

  unfoldable pub resource_for_kind : GroupVersionKind → Result GroupVersionResource
  resource_for_kind gvk = R.rest_mapping gvk

  unfoldable pub resource_for_referable : Referable → Result GroupVersionResource
  unfolding group_version_resource group_version_kind resource_for_kind
  resource_for_referable obj = elim (group_version_resource obj) [
    | ok gvr ↦ ok gvr
    | err _ ↦ group_version_kind obj >>= resource_for_kind
    | panic e ↦ panic e
  ]
