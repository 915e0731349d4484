-- ===== src/Context/Service.antt =====
-- A service of a binding and its custom resource definition
-- (pkg/reconcile/pipeline/context/service/service.go).
pub mod Description
use service_binding_operator.Base.{
  String, Bool, true, false, Option, none, some, List, [], ◌∷◌, ◌++◌, Error, Result, ok, err, panic,
  error, ◌>>=◌, ◌==◌, if◌then◌else◌,
}
use service_binding_operator.Value.{Object}
use service_binding_operator.Machinery.{Machinery, GroupVersionKind}
use service_binding_operator.Binding.Definition.{Definition}
use service_binding_operator.Mapping.Validation.{GroupVersionResource}
use service_binding_operator.Context.Lookup.{RestMapper, resource_for_kind}
use service_binding_operator.Context.Client.{
  Client, Fetched, fetched, absent, failed, config_maps, secrets,
}
use service_binding_operator.Context.Templates.{group_resource}

-- `Unstructured` has these accessors as well.
pub record Accessors : Type 0 where
  pub group_version_kind : Object → GroupVersionKind
  pub get_uid : Object → String
  pub owner_uids : Object → List String

abbrev pub CrdReader : Type 0 → Type 0
CrdReader World = GroupVersionResource → World → Fetched Object

pub record Builder (World : Type 0) : Type 0 where
  pub crd_reader : Option (CrdReader World)
  pub look_for_owned_resources : Bool

-- The fields of `service`. Its definition is kept as it was read, with the annotations that were
-- added since.
pub record Service (World : Type 0) : Type 0 where
  pub namespace : String
  pub resource : Object
  pub group_version_resource : GroupVersionResource
  pub crd_reader : CrdReader World
  pub crd : Option Object
  pub crd_lookup : Bool
  pub look_for_owned_resources : Bool
  pub binding_definitions : List Definition
  pub id : Option String

abbrev crd_gvr : String → GroupVersionResource
crd_gvr version = record {
  group = "apiextensions.k8s.io";
  version = version;
  resource = "customresourcedefinitions";
}

-- `crdGVRs`
abbrev pub crd_gvrs : List GroupVersionResource
crd_gvrs = crd_gvr "v1" ∷ crd_gvr "v1beta1" ∷ []

-- `bindableResourceGVRs`
abbrev pub bindable_resource_gvrs : List GroupVersionResource
bindable_resource_gvrs =
    config_maps
    ∷ secrets
    ∷ record { group = ""; version = "v1"; resource = "services" }
    ∷ record { group = "route.openshift.io"; version = "v1"; resource = "routes" }
    ∷ []

abbrev pub add_binding_def : {World : Type 0} → Definition → Service World → Service World
add_binding_def d s = record s { binding_definitions = s.binding_definitions ++ (d ∷ []) }

module _ (C : Client) (R : RestMapper) (M : Machinery) (U : Accessors) where
  open C use {World, get, list}

  -- The loop of the default reader, from the result of the last call.
  unfoldable pub read_crd :
      List GroupVersionResource → (name : String) → World → Fetched Object → Fetched Object
  read_crd [] name w last = last
  read_crd (gvr ∷ gvrs) name w last =
      let next = get gvr "" name w in
      let rest = read_crd gvrs name w next in
      elim next [ fetched u ↦ fetched u | absent e ↦ rest | failed e ↦ rest ]

  -- There is always a call, so the result that the loop starts from is not used.
  unfoldable pub default_crd_reader : CrdReader World
  unfolding read_crd
  default_crd_reader gvr w = read_crd crd_gvrs (group_resource gvr) w (failed (error "no version"))

  abbrev reader_or_default : Option (CrdReader World) → CrdReader World
  reader_or_default none = default_crd_reader
  reader_or_default (some r) = r

  -- `Build` with the options for an id and for a reader.
  unfoldable pub build_service :
      Builder World
      → (id : Option String) → (reader : Option (CrdReader World)) → Object
      → Result (Service World)
  unfolding default_crd_reader resource_for_kind
  build_service b id reader content = do
    gvr ← resource_for_kind R (U.group_version_kind content)
    ok (record {
      namespace = M.get_namespace content;
      resource = content;
      group_version_resource = gvr;
      crd_reader = elim reader [ some r ↦ r | none ↦ reader_or_default b.crd_reader ];
      crd = none;
      crd_lookup = false;
      look_for_owned_resources = b.look_for_owned_resources;
      binding_definitions = [];
      id = id;
    })

  -- The item once for each owner reference to the service.
  unfoldable pub owned_by : (uid : String) → (owners : List String) → Object → List Object
  owned_by uid [] item = []
  owned_by uid (o ∷ os) item =
      let rest = owned_by uid os item in if o == uid then item ∷ rest else rest

  unfoldable pub owned_items : (uid : String) → List Object → List Object
  unfolding owned_by
  owned_items uid [] = []
  owned_items uid (item ∷ items) = owned_by uid (U.owner_uids item) item ++ owned_items uid items

  unfoldable pub owned_in :
      (uid namespace : String) → List GroupVersionResource → World → Result (List Object)
  unfolding owned_items
  owned_in uid namespace [] w = ok []
  owned_in uid namespace (gvr ∷ gvrs) w =
      let rest = owned_in uid namespace gvrs w in
      elim (list gvr namespace [] w) [
        | absent e ↦ rest
        | failed e ↦ err e
        | fetched items ↦ rest >>= λ others. ok (owned_items uid items ++ others)
      ]

  unfoldable pub owned_resources : Service World → World → Result (List Object)
  unfolding owned_in
  owned_resources s w =
      if s.look_for_owned_resources
      then owned_in (U.get_uid s.resource) s.namespace bindable_resource_gvrs w
      else ok []

  -- `CustomResourceDefinition`: whether there is one, which the service then keeps.
  unfoldable pub custom_resource_definition : Service World → World → Result Bool × Service World
  custom_resource_definition s w = elim s.crd [
    | some _ ↦ (ok true, s)
    | none ↦
        if s.crd_lookup then (ok false, s) else elim (s.crd_reader s.group_version_resource w) [
          | absent e ↦ (ok false, record s { crd_lookup = true })
          | failed e ↦ (err e, s)
          | fetched u ↦ (ok true, record s { crd = some u })
        ]
  ]
