-- ===== src/Handlers/Collect/Ending.antt =====
-- How the collect handlers end.
use service_binding_operator.Base.{
  String, ◌≡◌, refl, Bool, Option, none, some, [], ◌∷◌, Error, Result, ok, err, panic,
}
use service_binding_operator.Base.Dict.{Dict}
use service_binding_operator.Value.{Fields, end, field, Object}
use service_binding_operator.Machinery.{
  Machinery, Nested, found, missing, invalid, GroupVersionKind,
}
use service_binding_operator.Binding.Jsonpath.{Jsonpath}
use service_binding_operator.Binding.Definition.{Definition, Payload, nothing, values, texts}
use service_binding_operator.Pipeline.SecretBacked.{SecretBackedBindings}
use service_binding_operator.Handlers.Act.{leave, change, look, attempt, when, crash}
use service_binding_operator.Handlers.Operations.{Operations}
use service_binding_operator.Handlers.Lawful.{IsLawful}
use service_binding_operator.Handlers.Discipline.{
  Obeys, discipline_rules, attempt-Obeys, look-Obeys, leave-Obeys, done-Obeys, then-Obeys,
  bind-Obeys, when-Obeys,
}
use service_binding_operator.Handlers.Collect.{retry_and_leave, collect_items}
use service_binding_operator.Handlers.Collect.Bindable.{PathMapping}
use service_binding_operator.Handlers.Collect.Stages.{
  services_or_none, crd_resource, take_definition, define_each, pre_flight, binding_definitions,
}
use service_binding_operator.Handlers.Collect.Offered.{
  collect_each, collect_payload, binding_items, bind_secret, check_not_provisioned, provision,
  provisioned_service, direct_secret_reference, collect_owned, collect_known, owned_resources,
}
use service_binding_operator.Handlers.Collect.Reporting.{
  reports_or_retries, Retries-refl, retry_and_leave-Obeys, crash-Obeys, report_and_stop-Obeys,
  kept-Obeys, collect_items-Obeys,
}

module _ (O : Operations) (L : IsLawful O) where
  open O use {State, Service, service, flow, services, add_bindings, set_condition}

  attempt_or_retry-Obeys :
      {A : Type 0} (f : State → Result A × State) (r : String)
      → ((s : State) → flow (f s).1 ≡ flow s)
      → Obeys (reports_or_retries O) (attempt f (retry_and_leave O r))
  attempt_or_retry-Obeys {A} f r h =
      attempt-Obeys (reports_or_retries O) f (retry_and_leave O r) h (retry_and_leave-Obeys O L A r)

  services-Obeys :
      (r : String) → Obeys (reports_or_retries O) (attempt services (retry_and_leave O r))
  services-Obeys r = attempt_or_retry-Obeys services r L.services-flow

  read-Obeys :
      {A : Type 0} (f : State → Result A) (r : String)
      → Obeys (reports_or_retries O) (attempt (λ s. (f s, s)) (retry_and_leave O r))
  read-Obeys f r = attempt_or_retry-Obeys (λ s. (f s, s)) r (λ s. refl)

  crd-Obeys :
      (sv : Service) (r : String)
      → Obeys
          (reports_or_retries O)
          (attempt (service.custom_resource_definition sv) (retry_and_leave O r))
  crd-Obeys sv r =
      attempt_or_retry-Obeys (service.custom_resource_definition sv) r
        (L.custom_resource_definition-flow sv)

  add_bindings-Obeys :
      (b : SecretBackedBindings (Option Service))
      → Obeys (reports_or_retries O) (change (add_bindings b))
  add_bindings-Obeys b = kept-Obeys O L (add_bindings b) (L.add_bindings-flow b)

  leave_at_once-Obeys : (b : Bool) → Obeys (reports_or_retries O) (when b leave)
  leave_at_once-Obeys b =
      when-Obeys (reports_or_retries O) b leave
        (leave-Obeys (reports_or_retries O) (Unit {0}) (Retries-refl O))

  retry-Obeys :
      (r : String) (e : Error) → Obeys (reports_or_retries O) {A = Unit {0}} (retry_and_leave O r e)
  retry-Obeys r e = retry_and_leave-Obeys O L (Unit {0}) r e

  module _ (M : Machinery) where
    collect_each-Obeys :
        (sv : Service) (f : Fields) → Obeys (reports_or_retries O) (collect_each M O sv f)
    unfolding collect_each
    collect_each-Obeys sv end = done-Obeys (reports_or_retries O)
    collect_each-Obeys sv (field k v f) =
        then-Obeys (reports_or_retries O) (collect_items O "" sv k v) (collect_each M O sv f)
          (collect_items-Obeys O L "" sv k v) (collect_each-Obeys sv f)

    services_or_none-Obeys : Obeys (reports_or_retries O) (services_or_none M O)
    unfolding services_or_none
    services_or_none-Obeys =
        attempt-Obeys (reports_or_retries O) services (λ _. look (λ s. [])) L.services-flow
          (λ _. look-Obeys (reports_or_retries O) (λ s. []))

    crd_resource-Obeys :
        (c : Option service.Crd) → Obeys (reports_or_retries O) (crd_resource M O c)
    unfolding crd_resource
    crd_resource-Obeys none = look-Obeys (reports_or_retries O) (λ s. none)
    crd_resource-Obeys (some c) =
        bind-Obeys (reports_or_retries O) (attempt (service.crd_resource c) crash) _
          (attempt-Obeys (reports_or_retries O) (service.crd_resource c) crash
            (L.crd_resource-flow c) (crash-Obeys O L Object))
          λ o. look-Obeys (reports_or_retries O) (λ s. some o)

    ruleset report_rules = (
      discipline_rules, services-Obeys, read-Obeys, crd-Obeys, add_bindings-Obeys,
      leave_at_once-Obeys, retry-Obeys, collect_each-Obeys, services_or_none-Obeys,
      crd_resource-Obeys,
    )

    take_definition-Obeys :
        (sv : Service) (key value : String) (r : Result (Option Definition))
        → Obeys (reports_or_retries O) (take_definition M O sv key value r)
    unfolding take_definition
    take_definition-Obeys sv key value (err e) = report_and_stop-Obeys O L _ _ e
    take_definition-Obeys sv key value (ok none) = done-Obeys (reports_or_retries O)
    take_definition-Obeys sv key value (ok (some d)) =
        kept-Obeys O L (service.add_binding_def d sv) (L.add_binding_def-flow d sv)
    take_definition-Obeys sv key value (panic e) = crash-Obeys O L (Unit {0}) e

    define_each-Obeys :
        (sv : Service) (anns : Dict String) → Obeys (reports_or_retries O) (define_each M O sv anns)
    unfolding define_each
    define_each-Obeys sv [] = done-Obeys (reports_or_retries O)
    define_each-Obeys sv ((k, v) ∷ anns) =
        let later = define_each-Obeys sv anns in search (discipline_rules, take_definition-Obeys)

    pre_flight-Obeys : Obeys (reports_or_retries O) (pre_flight M O)
    unfolding pre_flight
    pre_flight-Obeys = search report_rules

    binding_definitions-Obeys : Obeys (reports_or_retries O) (binding_definitions M O)
    unfolding binding_definitions
    binding_definitions-Obeys = search (report_rules, define_each-Obeys) depth 12

    collect_payload-Obeys :
        (sv : Service) (d : Definition) (v : Payload)
        → Obeys (reports_or_retries O) (collect_payload M O sv d v)
    unfolding collect_payload
    collect_payload-Obeys sv d nothing = search report_rules
    collect_payload-Obeys sv d (values o) = collect_each-Obeys sv _
    collect_payload-Obeys sv d (texts t) = collect_each-Obeys sv _

    binding_items-Obeys : (J : Jsonpath) → Obeys (reports_or_retries O) (binding_items M O J)
    unfolding binding_items
    binding_items-Obeys J = search (report_rules, collect_payload-Obeys) depth 12

    bind_secret-Obeys :
        (sv : Service) (name : String) → Obeys (reports_or_retries O) (bind_secret M O sv name)
    unfolding bind_secret
    bind_secret-Obeys sv name = search report_rules

    check_not_provisioned-Obeys :
        (sv : Service) → Obeys (reports_or_retries O) (check_not_provisioned M O sv)
    unfolding check_not_provisioned
    check_not_provisioned-Obeys sv = search report_rules depth 9

    provision-Obeys :
        (sv : Service) (name : Nested String) → Obeys (reports_or_retries O) (provision M O sv name)
    unfolding provision
    provision-Obeys sv (invalid e) = search report_rules
    provision-Obeys sv (found name) = search (report_rules, bind_secret-Obeys)
    provision-Obeys sv missing = check_not_provisioned-Obeys sv

    provisioned_service-Obeys : Obeys (reports_or_retries O) (provisioned_service M O)
    unfolding provisioned_service
    provisioned_service-Obeys = search (report_rules, provision-Obeys) depth 9

    module _ (group_version_kind : Object → GroupVersionKind) where
      direct_secret_reference-Obeys :
          Obeys (reports_or_retries O) (direct_secret_reference M O group_version_kind)
      unfolding direct_secret_reference
      direct_secret_reference-Obeys = search (report_rules, bind_secret-Obeys) depth 9

      collect_owned-Obeys :
          (sv : Service) (res : Object) (p : PathMapping)
          → Obeys (reports_or_retries O) (collect_owned M O group_version_kind sv res p)
      unfolding collect_owned
      collect_owned-Obeys sv res p =
          let collected = collect_items-Obeys O L "" sv p.output in search report_rules depth 9

      collect_known-Obeys :
          (sv : Service) (res : Object) (p : Option PathMapping)
          → Obeys (reports_or_retries O) (collect_known M O group_version_kind sv res p)
      unfolding collect_known
      collect_known-Obeys sv res none = done-Obeys (reports_or_retries O)
      collect_known-Obeys sv res (some p) = collect_owned-Obeys sv res p

      owned_resources-Obeys : Obeys (reports_or_retries O) (owned_resources M O group_version_kind)
      unfolding owned_resources
      owned_resources-Obeys = search (report_rules, collect_known-Obeys) depth 12

      -- Where everything but the flow control's own operations leaves that as it is
      -- (Handlers.Lawful.IsLawful), each of the collect handlers ends with the flow control of
      -- before, or with one that is stopped with an error and asks for a retry as the one before
      -- did, or, where it returns early, with one that is stopped and asks for a retry with an
      -- error.
      pub collect-Obeys :
          (J : Jsonpath)
          → Obeys (reports_or_retries O) (pre_flight M O)
            × Obeys (reports_or_retries O) (binding_definitions M O)
            × Obeys (reports_or_retries O) (binding_items M O J)
            × Obeys (reports_or_retries O) (provisioned_service M O)
            × Obeys (reports_or_retries O) (direct_secret_reference M O group_version_kind)
            × Obeys (reports_or_retries O) (owned_resources M O group_version_kind)
      collect-Obeys J = (
        pre_flight-Obeys,
        binding_definitions-Obeys,
        binding_items-Obeys J,
        provisioned_service-Obeys,
        direct_secret_reference-Obeys,
        owned_resources-Obeys,
      )
