-- ===== src/Tests/HandlerTests.antt =====
-- The handlers on a context of a binding.
use service_binding_operator.Base.{
  String, ◌<>◌, ◌≡◌, ◌⊎◌, refl, Bool, true, false, none, List, [], ◌∷◌, ◌++◌, ok,
}
use service_binding_operator.Base.Decimal.{decimal}
use service_binding_operator.Value.{Value, fields, text, object_of, array, nil, item}
use service_binding_operator.Workload.Edit.{Edit}
use service_binding_operator.Pipeline.Flow.{FlowCtrl, fresh_flow}
use service_binding_operator.Pipeline.Process.{process, Handler, run_handlers, invoke_handler}
use service_binding_operator.Handlers.Act
use service_binding_operator.Handlers.Act.{goes_on, handler, attempt, change, when, done, call}
use service_binding_operator.Handlers.Operations.{Operations}
use service_binding_operator.Handlers.Discipline.{Obeys}
use service_binding_operator.Handlers.Collect.{collect_items}
use service_binding_operator.Handlers.Collect.Flattened.{
  no_null, leaves, leaf, add_leaves, collect_items-leaves,
}
use service_binding_operator.Handlers.Collect.Reporting.{reports_or_retries}
use service_binding_operator.Handlers.Collect.Stages.{pre_flight, binding_definitions}
use service_binding_operator.Handlers.Collect.Offered.{
  binding_items, provisioned_service, direct_secret_reference, owned_resources,
}
use service_binding_operator.Handlers.Collect.Ending.{collect-Obeys}
use service_binding_operator.Base.Dict.{Dict}
use service_binding_operator.Handlers.Renaming.{Templates, NameData, handle_naming, handle_mapping}
use service_binding_operator.Handlers.Renaming.Stopping.{renaming-Stops}
use service_binding_operator.Handlers.Project.{
  inject_secret_ref, pre_flight_check, post_flight_check,
}
use service_binding_operator.Handlers.Project.Injection.{bindings_as_env, bindings_as_files, unbind}
use service_binding_operator.Handlers.Project.Stopping.{keeps_or_stops, injection-Stops}
use service_binding_operator.Handlers.Project.Checked.{Passed}
use service_binding_operator.Handlers.Project.Holding.{PersistFailed}
use service_binding_operator.Handlers.Pipelines.Held.{pre_flight_check-holds}
use service_binding_operator.Handlers.Pipelines.{
  pipeline_context, spec_flow, process-unbind, process-selects,
}
use service_binding_operator.Context.State
use service_binding_operator.Context.Reading.{requests}
use service_binding_operator.Context.{unbind_requested, is_removed}
use service_binding_operator.Context.Contexts.{context}
use service_binding_operator.Context.Contexts.Lawful.{context-IsLawful}
use service_binding_operator.Tests.Cluster.{machinery}
use service_binding_operator.Tests.BindingTests.{jsonpath}
use service_binding_operator.Tests.Bindings.{environment, start, selecting}

abbrev operations : Operations
operations = context environment

-- The context at the start, for a binding that is being deleted or not, and its first service.
unfoldable initial : Bool → operations.State
unfolding context
initial deleted = start deleted

unfoldable database : operations.Service
unfolding context
database = 0

abbrev tail : {A : Type 0} → List A → List A
tail [] = []
tail (x ∷ xs) = xs

process-unbind_example :
    process
      (pipeline_context operations)
      (spec_flow operations machinery jsonpath environment.accessors.group_version_kind)
      (ok (initial true))
    ≡ process
        (pipeline_context operations)
        (handler (unbind machinery operations) ∷ [])
        (ok (initial true))
unfolding context initial start unbind_requested is_removed spec_flow
process-unbind_example =
    process-unbind operations (context-IsLawful environment) machinery
      (tail (spec_flow operations machinery jsonpath environment.accessors.group_version_kind))
      (initial true) refl

-- The context of the binding that selects by a label.
unfoldable by_label : operations.State
unfolding context
by_label = selecting

abbrev first_handlers : List (Handler (pipeline_context operations))
first_handlers =
    handler (pre_flight machinery operations) ∷ handler (bindings_as_env machinery operations) ∷ []

abbrev reached : FlowCtrl × operations.State
reached = run_handlers (pipeline_context operations) first_handlers fresh_flow by_label

process-selects_example :
    (process
      (pipeline_context operations)
      (first_handlers ++ (handler (post_flight_check operations) ∷ []))
      (ok by_label)).0.retry
    ≡ true
unfolding run_handlers context handler Act.outcome pre_flight Act.◌>>◌ Act.◌>>=◌ attempt State.◌>>=◌
    by_label selecting requests done bindings_as_env Act.look when Act.leave
process-selects_example =
    process-selects operations (context-IsLawful environment) first_handlers by_label reached.1
      reached.0 refl refl refl

abbrev values : Value
values = object_of (
    ("host", text "db.local")
    ∷ ("ports", array (item (text "1") (item (text "2") nil)))
    ∷ ("tls", object_of (("cert", text "pem") ∷ []))
    ∷ [])

collect_items-leaves_example :
    collect_items operations "" database "status" values (initial false) ≡ (
      goes_on tt,
      add_leaves operations database
          (leaf "status" ("host" ∷ []) (text "db.local")
            ∷ leaf "status" ("ports_0" ∷ []) (text "1")
            ∷ leaf "status" ("ports_1" ∷ []) (text "2")
            ∷ leaf "status" ("tls" ∷ "cert" ∷ []) (text "pem")
            ∷ [])
          (initial false),
    )
unfolding no_null leaves add_leaves decimal fields
collect_items-leaves_example =
    collect_items-leaves operations "status" database values (initial false) refl

-- The context with a binding item, and what `PreFlightCheck` makes of it.
unfoldable collected : operations.State
unfolding context initial
collected =
    operations.add_binding_item (record { name = "password"; value = text "s"; source = none })
      (initial false)

-- The pipeline that begins with it goes on to the next handler.
pre_flight_check-holds_example :
    (process
        (pipeline_context operations)
        (handler (pre_flight_check operations ("password" ∷ []))
          ∷ handler (post_flight_check operations)
          ∷ [])
        (ok collected)
      ≡ process
          (pipeline_context operations)
          (handler (pre_flight_check operations ("password" ∷ [])) ∷ [])
          (ok collected))
    ⊎ (PersistFailed operations collected
        ⊎ Passed operations ("password" ∷ []) collected (
            invoke_handler
              (pipeline_context operations)
              (handler (pre_flight_check operations ("password" ∷ [])))
              collected))
pre_flight_check-holds_example =
    pre_flight_check-holds operations (context-IsLawful environment) ("password" ∷ [])
      (handler (post_flight_check operations) ∷ []) collected

collect-Obeys_example :
    Obeys (reports_or_retries operations) (pre_flight machinery operations)
    × Obeys (reports_or_retries operations) (binding_definitions machinery operations)
    × Obeys (reports_or_retries operations) (binding_items machinery operations jsonpath)
    × Obeys (reports_or_retries operations) (provisioned_service machinery operations)
    × Obeys
        (reports_or_retries operations)
        (direct_secret_reference machinery operations environment.accessors.group_version_kind)
    × Obeys
        (reports_or_retries operations)
        (owned_resources machinery operations environment.accessors.group_version_kind)
collect-Obeys_example =
    collect-Obeys operations (context-IsLawful environment) machinery
      environment.accessors.group_version_kind jsonpath

abbrev set_nothing : String → List String → Edit (Unit {0})
set_nothing v p o = (ok tt, o)

injection-Stops_example :
    Obeys (keeps_or_stops operations) (bindings_as_env machinery operations)
    × Obeys (keeps_or_stops operations) (bindings_as_files machinery operations)
    × Obeys (keeps_or_stops operations) (inject_secret_ref operations set_nothing)
injection-Stops_example =
    injection-Stops operations (context-IsLawful environment) machinery set_nothing

-- Templates that are put in front of the name, and ones that are the value.
abbrev prefixing : Templates NameData
prefixing = record { Template = String; parse = λ s. ok s; execute = λ t d. ok (t <> d.name) }

abbrev constant : Templates (Dict Value)
constant = record { Template = String; parse = λ s. ok s; execute = λ t vars. ok t }

renaming-Stops_example :
    Obeys (keeps_or_stops operations) (handle_naming operations machinery prefixing)
    × Obeys (keeps_or_stops operations) (handle_mapping operations constant)
renaming-Stops_example =
    renaming-Stops operations (context-IsLawful environment) machinery prefixing constant
