-- ===== src/Admission.antt =====
-- What happens when bindings and workload mappings are admitted (apis/webhooks/admission.go and
-- apis/webhooks/validator.go).
pub mod Serialized
use service_binding_operator.Base.{
  String, Bool, true, false, Option, none, some, List, [], ◌∷◌, Error, error, Result, ok, err,
  panic, ◌>>=◌, ◌==◌, ◌||◌, if◌then◌else◌,
}
use service_binding_operator.Base.Dict.{Dict, insert}
use service_binding_operator.Value.{Object}
use service_binding_operator.Apis.Common.{set_requester}
use service_binding_operator.Mapping.{Parser}
use service_binding_operator.Mapping.Validation.{
  Mapping, FieldError, GroupVersionResource, accepts_gvr, validate,
}
use service_binding_operator.Context.{Ref, WorkloadReference, mapping_annotation_key}
use service_binding_operator.Context.Lookup.{
  RestMapper, by_ref, by_workload, group_version_kind, group_version_resource, resource_for_kind,
}
use service_binding_operator.Context.Client.{Client, UserInfo, Fetched, fetched, fetched_or_error}

-- `Operation` of a request, as far as it is told apart.
pub data Operation : Type 0 where
  create update other : Operation

-- What is read of a request.
pub record Request : Type 0 where
  pub user_info : UserInfo
  pub operation : Operation
  pub raw : String

-- `admission.Response`: a patch is from one text to another one.
pub data Response : Type 0 where
  allowed : Response
  bad_request internal_error : Error → Response
  patched : (original current : String) → Response

-- The decoder of requests, the JSON encoders, the accessors of an object and the conversions to the
-- bindings of both kinds, of which the namespace and the reference to the workload are read.
pub record Codecs : Type 0 where
  pub decode : Request → Result Object
  pub marshal_object : Object → Result String
  pub marshal_user : UserInfo → String
  pub unmarshal_user : String → Option UserInfo
  pub marshal_mapping : Mapping → Result String
  pub get_annotations : Object → Dict String
  pub set_annotations : Dict String → Object → Object
  pub workload_of_spec_binding : Object → Result (String × WorkloadReference)
  pub application_of_binding : Object → Result (String × Ref)

abbrev changes : Operation → Bool
changes create = true
changes update = true
changes other = false

abbrev response_of : (original : String) → Result String → Result Response
response_of original (ok text) = ok (patched original text)
response_of original (err e) = ok (internal_error e)
response_of original (panic e) = panic e

-- The resources of the two kinds of bindings.
abbrev pub spec_bindings : GroupVersionResource
spec_bindings = record {
  group = "servicebinding.io";
  version = "v1beta1";
  resource = "servicebindings";
}

abbrev pub operator_bindings : GroupVersionResource
operator_bindings = record {
  group = "binding.operators.coreos.com";
  version = "v1alpha1";
  resource = "servicebindings";
}

-- What follows on an update that gives no error.
abbrev pub after_update :
    {W : Type 0} → Option Error × W → (W → Result (Unit {0}) × W) → Result (Unit {0}) × W
after_update (some e, w) next = (err e, w)
after_update (none, w) next = next w

module _ (K : Codecs) where
  open K use {
    decode, marshal_object, marshal_user, unmarshal_user, marshal_mapping, get_annotations,
    set_annotations, workload_of_spec_binding, application_of_binding,
  }

  abbrev pub with_requester : UserInfo → Object → Object
  with_requester user o =
      set_annotations (set_requester marshal_user unmarshal_user user (get_annotations o)) o

  -- `admissionHandler.Handle`
  unfoldable pub handle_request : (service_account : String) → Request → Result Response
  unfolding set_requester
  handle_request service_account req =
      if req.user_info.username == service_account then ok allowed else elim (decode req) [
        | err e ↦ ok (bad_request e)
        | panic e ↦ panic e
        | ok sb ↦
            if changes req.operation
            then response_of req.raw (marshal_object (with_requester req.user_info sb))
            else ok allowed
      ]

  -- The binding with the mapping as it was.
  unfoldable pub with_mapping : (serialized : String) → Object → Object
  unfolding insert
  with_mapping serialized o =
      set_annotations (insert mapping_annotation_key serialized (get_annotations o)) o

  module _ (R : RestMapper) where
    -- The resource of the workload of a binding, with the namespace of the binding.
    unfoldable pub spec_workload : Object → Result (String × GroupVersionResource)
    unfolding group_version_kind resource_for_kind
    spec_workload o = do
      sb ← workload_of_spec_binding o
      gvk ← group_version_kind R (by_workload sb.1)
      gvr ← resource_for_kind R gvk
      ok (sb.0, gvr)

    -- A resource that is not given leaves a nil pointer.
    abbrev known_resource : Ref → Result GroupVersionResource
    known_resource r = elim (group_version_resource (by_ref r)) [
      | ok gvr ↦ ok gvr
      | err e ↦ panic (error "nil pointer dereference")
      | panic e ↦ panic e
    ]

    unfoldable pub operator_workload : Object → Result (String × GroupVersionResource)
    unfolding group_version_kind resource_for_kind group_version_resource
    operator_workload o = do
      sb ← application_of_binding o
      gvr ←
          if sb.1.kind == ""
          then known_resource sb.1
          else (group_version_kind R (by_ref sb.1) >>= resource_for_kind R)
      ok (sb.0, gvr)

    module _ (C : Client) (m : Mapping) (serialized : String) where
      open C use {World}

      -- The loop over the bindings of a kind.
      unfoldable pub annotate_each :
          (kind : GroupVersionResource)
          → (workload : Object → Result (String × GroupVersionResource)) → List Object
          → World
          → Result (Unit {0}) × World
      unfolding accepts_gvr with_mapping
      annotate_each kind workload [] w = (ok tt, w)
      annotate_each kind workload (o ∷ os) w =
          let rest = annotate_each kind workload os in
          elim (workload o) [
            | err e ↦ (err e, w)
            | panic e ↦ (panic e, w)
            | ok (namespace, gvr) ↦
                if accepts_gvr m gvr
                then after_update (C.update kind namespace (with_mapping serialized o) w) rest
                else rest w
          ]

      -- The bindings of a kind are listed in all namespaces.
      unfoldable pub annotate_all :
          (kind : GroupVersionResource)
          → (workload : Object → Result (String × GroupVersionResource)) → World
          → Result (Unit {0}) × World
      unfolding annotate_each
      annotate_all kind workload w = elim (fetched_or_error (C.list kind "" [] w)) [
        | ok items ↦ annotate_each kind workload items w
        | err e ↦ (err e, w)
        | panic e ↦ (panic e, w)
      ]

    -- `Serialize`
    unfoldable pub serialize : (C : Client) → Mapping → C.World → Result (Unit {0}) × C.World
    unfolding annotate_all spec_workload operator_workload
    serialize C m w = elim (marshal_mapping m) [
      | err e ↦ (err e, w)
      | panic e ↦ (panic e, w)
      | ok serialized ↦
          let (r, w') = annotate_all C m serialized spec_bindings spec_workload w in
          elim r [
            | ok _ ↦ annotate_all C m serialized operator_bindings operator_workload w'
            | err e ↦ (err e, w')
            | panic e ↦ (panic e, w')
          ]
    ]

    -- `ValidateUpdate` of a mapping: the errors of the new one, or else what serializing the old
    -- one gives.
    unfoldable pub validate_mapping_update :
        (C : Client)
        → (parse : Parser) → (old new : Mapping) → C.World
        → Result (List FieldError) × C.World
    unfolding validate serialize
    validate_mapping_update C parse old new w = elim (validate parse new) [
      | e ∷ es ↦ (ok (e ∷ es), w)
      | [] ↦
          let (r, w') = serialize C old w in
          (elim r [ ok _ ↦ ok [] | err e ↦ err e | panic e ↦ panic e ], w')
    ]
