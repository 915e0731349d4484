-- ===== src/Handlers/Collect/Offered.antt =====
-- The collect handlers that read what a service offers
-- (pkg/reconcile/pipeline/handler/collect/impl.go), over any context.
use service_binding_operator.Base.{
  String, Bool, false, ◌&&◌, ◌||◌, Option, none, some, [], ◌∷◌, Result, ok, err, error, errorf,
  ◌==◌, if◌then◌else◌,
}
use service_binding_operator.Base.Dict.{Dict, lookup}
use service_binding_operator.Base.Text.{split, has_prefix}
use service_binding_operator.Value.{Value, Fields, end, field, Object, fields}
use service_binding_operator.Machinery.{
  Machinery, Nested, found, missing, invalid, GroupVersionKind,
}
use service_binding_operator.Binding.Jsonpath.{Jsonpath}
use service_binding_operator.Binding.Annotation.{
  annotation_prefix, provisioned_service_annotation_key,
}
use service_binding_operator.Binding.Apply.{apply}
use service_binding_operator.Binding.Definition.{
  Definition, Payload, nothing, values, texts, non_existing_optional,
}
use service_binding_operator.Pipeline.SecretBacked.{secret_backed}
use service_binding_operator.Handlers.Act.{
  Act, ◌>>=◌, ◌>>◌, done, leave, change, look, attempt, when, each,
}
use service_binding_operator.Handlers.Operations.{Operations}
use service_binding_operator.Handlers.Collect.{retry_and_leave, collect_items}
use service_binding_operator.Handlers.Collect.Bindable.{
  PathMapping, bindable_resource, apply_transform, text_fields, with_reader,
}
use service_binding_operator.Handlers.Collect.Stages.{
  error_reading_services_reason, error_reading_crd, error_reading_binding_reason,
  error_reading_secret, data_not_map, services_or_none, annotations_of, crd_resource, reader_at,
}

-- Some key of the annotations is one of binding.
unfoldable pub has_binding_annotation : Dict String → Bool
unfolding has_prefix
has_binding_annotation [] = false
has_binding_annotation ((k, v) ∷ anns) =
    has_prefix k annotation_prefix || has_binding_annotation anns

-- `NestedFieldNoCopy`, where whatever is not found is an error.
abbrev or_missing : Nested Value → Result Value
or_missing (found v) = ok v
or_missing _ = err (error "Not found")

module _ (M : Machinery) (O : Operations) where
  open O use {State, Service, service, services, read_secret, add_bindings}

  -- The loop over the keys of a value.
  unfoldable pub collect_each : Service → Fields → Act State (Unit {0})
  unfolding collect_items
  collect_each sv end = done
  collect_each sv (field k v f) = collect_items O "" sv k v >> collect_each sv f

  -- What is done with the value of a definition.
  unfoldable pub collect_payload : Service → Definition → Payload → Act State (Unit {0})
  unfolding collect_each non_existing_optional
  collect_payload sv d (values o) = collect_each sv (fields o)
  collect_payload sv d (texts t) = collect_each sv (text_fields t)
  collect_payload sv d nothing =
      if non_existing_optional d nothing then done else retry_and_leave O "DataNotMap" data_not_map

  unfoldable pub binding_items : (J : Jsonpath) → Act State (Unit {0})
  unfolding each apply collect_payload with_reader
  binding_items J = do
    svcs ← services_or_none M O
    each svcs λ sv. do
      defs ← look (service.binding_defs sv)
      each defs λ d. do
        v ←
            attempt (λ s. (apply J M (with_reader (reader_at M O s) d) (service.resource sv s), s))
              (retry_and_leave O error_reading_binding_reason)
        collect_payload sv d v

  -- The secret of that name is read and kept with its service.
  unfoldable pub bind_secret : Service → (name : String) → Act State (Unit {0})
  bind_secret sv name = do
    secret ←
        attempt (λ s. (read_secret (M.get_namespace (service.resource sv s)) name s, s))
          (retry_and_leave O error_reading_secret)
    change (add_bindings (secret_backed (some sv) secret))

  -- `crd.Resource().GetAnnotations()` says that the service is a provisioned one.
  abbrev is_provisioned : Option Object → Bool
  is_provisioned o = elim (lookup provisioned_service_annotation_key (annotations_of M O o)) [
    | some v ↦ v == "true"
    | none ↦ false
  ]

  -- The part for a service without a secret name.
  unfoldable pub check_not_provisioned : Service → Act State (Unit {0})
  unfolding lookup
  check_not_provisioned sv = do
    crd ← attempt (service.custom_resource_definition sv) (retry_and_leave O error_reading_crd)
    o ← crd_resource M O crd
    res ← look (service.resource sv)
    when (is_provisioned o) (
        retry_and_leave O error_reading_binding_reason (
          errorf
            "CRD of service %v/%v indicates provisioned service, but no secret name provided under .status.binding.name"
            (M.get_namespace res ∷ M.get_name res ∷ [])))

  -- From what `NestedString` finds under `status.binding.name`.
  unfoldable pub provision : Service → Nested String → Act State (Unit {0})
  unfolding bind_secret check_not_provisioned
  provision sv (invalid e) = retry_and_leave O error_reading_binding_reason e
  provision sv (found name) = if name == "" then done else bind_secret sv name
  provision sv missing = check_not_provisioned sv

  unfoldable pub provisioned_service : Act State (Unit {0})
  unfolding each provision
  provisioned_service = do
    svcs ← services_or_none M O
    each svcs λ sv. do
      name ←
          look (λ s. M.nested_string (service.resource sv s) ("status" ∷ "binding" ∷ "name" ∷ []))
      provision sv name

  module _ (group_version_kind : Object → GroupVersionKind) where
    abbrev is_secret : Object → Bool
    is_secret res =
        M.get_kind res == "Secret"
        && (M.get_api_version res == "v1" && (group_version_kind res).group == "")

    unfoldable pub direct_secret_reference : Act State (Unit {0})
    unfolding each bind_secret has_binding_annotation
    direct_secret_reference = do
      svcs ← services_or_none M O
      each svcs λ sv. do
        res ← look (service.resource sv)
        when (is_secret res) (
            when (has_binding_annotation (M.get_annotations res)) leave
            >> bind_secret sv (M.get_name res))

    -- What is taken of an owned resource of a known kind.
    unfoldable pub collect_owned : Service → Object → PathMapping → Act State (Unit {0})
    unfolding split collect_items
    collect_owned sv res p = do
      raw ←
          attempt (λ s. (or_missing (M.nested_field res (split "." p.input)), s))
            (retry_and_leave O error_reading_services_reason)
      v ←
          attempt (λ s. (apply_transform p.transform raw, s))
            (retry_and_leave O error_reading_services_reason)
      collect_items O "" sv p.output v

    -- A resource of another kind is passed over.
    unfoldable pub collect_known : Service → Object → Option PathMapping → Act State (Unit {0})
    unfolding collect_owned
    collect_known sv res none = done
    collect_known sv res (some p) = collect_owned sv res p

    unfoldable pub owned_resources : Act State (Unit {0})
    unfolding each bindable_resource collect_known
    owned_resources = do
      svcs ← attempt services (retry_and_leave O error_reading_services_reason)
      each svcs λ sv. do
        owned ←
            attempt (λ s. (service.owned_resources sv s, s))
              (retry_and_leave O error_reading_services_reason)
        each owned λ res. collect_known sv res (bindable_resource (group_version_kind res))
