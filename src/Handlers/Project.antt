-- ===== src/Handlers/Project.antt =====
-- The project handlers (pkg/reconcile/pipeline/handler/project/impl.go), over any context: the
-- checks before and after the projection, and the secret's name in a field of the resource.
pub mod Injection
pub mod Stopping
pub mod Unbinding
pub mod Checked
pub mod Holding
use service_binding_operator.Base.{
  String, Bool, Option, none, some, List, [], ◌∷◌, Error, error, errorf, not, ◌==◌, is_empty,
  if◌then◌else◌,
}
use service_binding_operator.Base.Dict.{Dict, lookup, contains}
use service_binding_operator.Base.Text.{split}
use service_binding_operator.Workload.Edit.{Edit}
use service_binding_operator.Apis.Conditions.{
  Condition, conditions, not_collection_ready, collection_ready, data_collected,
  not_injection_ready, injection_ready, application_not_found, empty_application_reason,
  no_binding_data_reason, required_binding_not_found, reason, msg,
}
use service_binding_operator.Pipeline.Flow.{retry_processing, set_error, stop_processing}
use service_binding_operator.Pipeline.Items.{as_map}
use service_binding_operator.Handlers.Act.{
  Act, goes_on, panics, ◌>>=◌, ◌>>◌, done, leave, change, look, call, attempt, not_nil, when, each,
  crash,
}
use service_binding_operator.Handlers.Operations.{Operations}

abbrev pub no_injection : Condition
no_injection = not_injection_ready conditions

abbrev no_data : Error
no_data = error "no binding data to project"

abbrev no_mandatory_binding : String → Error
no_mandatory_binding key = errorf "Mandatory binding '%v' not found" (key ∷ [])

module _ (O : Operations) where
  open O use {
    State, Application, application, flow, set_flow, set_condition, persist_secret, applications,
    binding_items, has_label_selector, delay_reprocessing, binding_secret_name,
  }

  -- `stop`
  abbrev pub stop_with : Error → State → State
  stop_with e s =
      set_condition (msg e (reason "Error" no_injection))
        (set_flow (set_error (some e) (stop_processing (flow s))) s)

  unfoldable pub stop_and_leave {ℓ} : {A : Type ℓ} → Error → Act State A
  stop_and_leave e = change (stop_with e) >> leave

  abbrev pub retry_for : Error → State → State
  retry_for e s = set_flow (retry_processing (some e) (flow s)) s

  abbrev stop_flow : State → State
  stop_flow s = set_flow (stop_processing (flow s)) s

  -- `applications, _ := ctx.Applications()`
  unfoldable pub applications_or_none : Act State (List Application)
  applications_or_none = attempt applications (λ _. look (λ s. []))

  -- The condition, the error and the stop for a mandatory key that is not there.
  abbrev report_missing : String → State → State
  report_missing k s =
      let e = no_mandatory_binding k in
      let s' = set_condition (msg e (reason required_binding_not_found no_injection)) s in
      set_flow (stop_processing (set_error (some e) (flow s'))) s'

  -- The loop over the mandatory keys.
  unfoldable pub check_mandatory : List String → Dict String → Act State (Unit {0})
  unfolding lookup
  check_mandatory [] items = done
  check_mandatory (k ∷ ks) items =
      let rest = check_mandatory ks items in
      if contains k items then rest else λ s.
      let s' =
        set_condition
          (msg (no_mandatory_binding k) (reason required_binding_not_found no_injection)) s in
      leave (set_flow (stop_processing (set_error (some (no_mandatory_binding k)) (flow s'))) s')

  -- `PreFlightCheck` after the secret is persisted
  unfoldable pub check_projection : (mandatory_binding_keys : List String) → Act State (Unit {0})
  unfolding check_mandatory
  check_projection keys = do
    change (set_condition (data_collected (collection_ready conditions)))
    apps ← attempt applications λ e. do
      change (retry_for e)
      change (set_condition (msg e (application_not_found no_injection)))
      leave
    when (is_empty apps) do
      change (set_condition (reason empty_application_reason no_injection))
      change stop_flow
      leave
    items ← call binding_items
    when (is_empty items) do
      change (retry_for no_data)
      change (set_condition (msg no_data (reason no_binding_data_reason no_injection)))
      leave
    check_mandatory keys (as_map items)

  unfoldable pub pre_flight_check : (mandatory_binding_keys : List String) → Act State (Unit {0})
  unfolding check_projection
  pre_flight_check keys = do
    attempt persist_secret (λ e. change (set_condition (not_collection_ready conditions)) >> leave)
    check_projection keys

  unfoldable pub post_flight_check : Act State (Unit {0})
  post_flight_check = do
    change (set_condition (reason "ApplicationUpdated" (injection_ready conditions)))
    selects ← look has_label_selector
    when selects (change (delay_reprocessing none))

  -- `unstructured.SetNestedField` with a text.
  module _ (set_nested_field : String → List String → Edit (Unit {0})) where
    unfoldable pub inject_secret_ref : Act State (Unit {0})
    unfolding each split
    inject_secret_ref = do
      apps ← applications_or_none
      each apps λ app. do
        path ← look (application.secret_path app)
        when (not (path == "")) do
          name ← call binding_secret_name
          attempt (application.edit app (set_nested_field name (split "." path))) stop_and_leave
