-- ===== src/Handlers/Collect/Stages.antt =====
-- The collect handlers (pkg/reconcile/pipeline/handler/collect/impl.go), over any context.
use service_binding_operator.Base.{
  String, Option, none, some, List, [], ◌∷◌, Error, Result, ok, err, panic, error, wrap,
}
use service_binding_operator.Base.Dict.{Dict, merge}
use service_binding_operator.Value.{Object}
use service_binding_operator.Machinery.{Machinery}
use service_binding_operator.Binding.Annotation.{new_definition_builder, build}
use service_binding_operator.Binding.Definition.{SecretConfigMapReader, Definition}
use service_binding_operator.Handlers.Act.{
  Act, ◌>>=◌, ◌>>◌, done, change, look, attempt, each, crash,
}
use service_binding_operator.Handlers.Operations.{Operations}
use service_binding_operator.Handlers.Collect.{retry_and_leave, report_and_stop}

abbrev pub error_reading_services_reason : String
error_reading_services_reason = "ErrorReadingServices"

abbrev pub error_reading_crd : String
error_reading_crd = "ErrorReadingCRD"

abbrev pub error_reading_binding_reason : String
error_reading_binding_reason = "ErrorReadingBinding"

abbrev pub error_reading_secret : String
error_reading_secret = "ErrorReadingSecret"

abbrev pub invalid_annotation : String
invalid_annotation = "InvalidAnnotation"

abbrev pub data_not_map : Error
data_not_map = error "Returned data are not a map, skip collecting"

module _ (M : Machinery) (O : Operations) where
  open O use {
    State, Service, service, services, flow, set_flow, set_condition, read_config_map, read_secret,
    add_bindings,
  }

  -- `services, _ := ctx.Services()`
  unfoldable pub services_or_none : Act State (List Service)
  services_or_none = attempt services (λ _. look (λ s. []))

  abbrev pub annotations_of : Option Object → Dict String
  annotations_of none = []
  annotations_of (some o) = M.get_annotations o

  unfoldable pub pre_flight : Act State (Unit {0})
  pre_flight = attempt services (retry_and_leave O error_reading_services_reason) >> done

  -- The resource of a custom resource definition, if there is one.
  unfoldable pub crd_resource : Option service.Crd → Act State (Option Object)
  crd_resource none = look (λ s. none)
  crd_resource (some c) = do o ← attempt (service.crd_resource c) crash; look (λ s. some o)

  abbrev pub reader_at : State → SecretConfigMapReader
  reader_at s = record {
    config_map_reader = λ namespace name. read_config_map namespace name s;
    secret_reader = λ namespace name. read_secret namespace name s;
  }

  -- `makeBindingDefinition`
  unfoldable pub make_binding_definition : (key value : String) → State → Result (Option Definition)
  unfolding build new_definition_builder
  make_binding_definition key value s =
      build (
        new_definition_builder key value (reader_at s).config_map_reader
          (reader_at s).secret_reader)

  -- What is done with the definition for an annotation. An error is reported, and that is all.
  unfoldable pub take_definition :
      Service → (key value : String) → Result (Option Definition) → Act State (Unit {0})
  take_definition sv key value (err e) = change (
      report_and_stop O invalid_annotation
        (wrap "Failed to create binding definition from \"%v: %v\": %v" (key ∷ value ∷ []) e) e)
  take_definition sv key value (ok none) = done
  take_definition sv key value (ok (some d)) = change (service.add_binding_def d sv)
  take_definition sv key value (panic e) = crash e

  -- The loop over the annotations.
  unfoldable pub define_each : Service → Dict String → Act State (Unit {0})
  unfolding make_binding_definition take_definition
  define_each sv [] = done
  define_each sv ((k, v) ∷ anns) = do
    r ← look (make_binding_definition k v)
    take_definition sv k v r
    define_each sv anns

  unfoldable pub binding_definitions : Act State (Unit {0})
  unfolding each define_each merge
  binding_definitions = do
    svcs ← services_or_none
    each svcs λ sv. do
      crd ← attempt (service.custom_resource_definition sv) (retry_and_leave O error_reading_crd)
      o ← crd_resource crd
      anns ←
          look
            (λ s. merge (merge [] (annotations_of o)) (M.get_annotations (service.resource sv s)))
      define_each sv anns
