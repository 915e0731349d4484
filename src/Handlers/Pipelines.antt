-- ===== src/Handlers/Pipelines.antt =====
-- The handlers of a context run as a pipeline (pkg/reconcile/pipeline/builder/pipeline.go): what
-- follows on a handler that has stopped the flow control.
pub mod Held
use service_binding_operator.Base.{
  String, ◌≡◌, refl, ap, ◌∙◌, Bool, true, false, if-false, if◌then◌else◌, none, List, [], ◌∷◌, ◌++◌,
  Result, ok, err, panic,
}
use service_binding_operator.Machinery.{Machinery, GroupVersionKind}
use service_binding_operator.Pipeline.Flow.{FlowCtrl, fresh_flow, retry_processing}
use service_binding_operator.Pipeline.Process.{
  Context, Handler, invoke_handler, run_handlers, finish, process,
}
use service_binding_operator.Handlers.Act.{
  Act, Progress, goes_on, returns, panics, handler, outcome, ◌>>=◌, ◌>>◌, change, look, when,
}
use service_binding_operator.Handlers.Operations.{Operations}
use service_binding_operator.Handlers.Lawful.{IsLawful}
use service_binding_operator.Apis.Conditions.{reason, injection_ready, conditions}
use service_binding_operator.Binding.Jsonpath.{Jsonpath}
use service_binding_operator.Base.Dict.{Dict}
use service_binding_operator.Value.{Value, Object}
use service_binding_operator.Workload.Edit.{Edit}
use service_binding_operator.Handlers.Renaming.{Templates, NameData, handle_naming, handle_mapping}
use service_binding_operator.Pipeline.Halting.{run_handlers-append}
use service_binding_operator.Handlers.Collect.Stages.{pre_flight, binding_definitions}
use service_binding_operator.Handlers.Collect.Offered.{
  binding_items, provisioned_service, direct_secret_reference, owned_resources,
}
use service_binding_operator.Handlers.Project.{
  pre_flight_check, post_flight_check, inject_secret_ref,
}
use service_binding_operator.Handlers.Project.Injection.{unbind, bindings_as_env, bindings_as_files}
use service_binding_operator.Handlers.Project.Unbinding.{Halts, unbind-Halts}

-- A context of the handlers as the pipeline sees it.
abbrev pub pipeline_context : Operations → Context
pipeline_context O = record {
  State = O.State;
  flow = O.flow;
  set_flow = O.set_flow;
  close = O.close;
}

-- `specFlow`, the handlers for a binding of the specification.
unfoldable pub spec_flow :
    (O : Operations)
    → Machinery
    → Jsonpath
    → (group_version_kind : Object → GroupVersionKind) → List (Handler (pipeline_context O))
unfolding handler unbind pre_flight provisioned_service direct_secret_reference binding_definitions
    binding_items pre_flight_check bindings_as_env bindings_as_files post_flight_check
spec_flow O M J group_version_kind =
    handler (unbind M O)
    ∷ handler (pre_flight M O)
    ∷ handler (provisioned_service M O)
    ∷ handler (direct_secret_reference M O group_version_kind)
    ∷ handler (binding_definitions M O)
    ∷ handler (binding_items M O J)
    ∷ handler (pre_flight_check O ("type" ∷ []))
    ∷ handler (bindings_as_env M O)
    ∷ handler (bindings_as_files M O)
    ∷ handler (post_flight_check O)
    ∷ []

-- `defaultFlow`, the handlers for a binding of the operator's own kind.
unfoldable pub default_flow :
    (O : Operations)
    → Machinery
    → Jsonpath
    → (group_version_kind : Object → GroupVersionKind) → Templates NameData
    → Templates (Dict Value)
    → (set_nested_field : String → List String → Edit (Unit {0}))
    → List (Handler (pipeline_context O))
unfolding handler unbind pre_flight provisioned_service direct_secret_reference binding_definitions
    binding_items owned_resources handle_mapping handle_naming pre_flight_check inject_secret_ref
    bindings_as_env bindings_as_files post_flight_check
default_flow O M J group_version_kind names values set_nested_field =
    handler (unbind M O)
    ∷ handler (pre_flight M O)
    ∷ handler (provisioned_service M O)
    ∷ handler (direct_secret_reference M O group_version_kind)
    ∷ handler (binding_definitions M O)
    ∷ handler (binding_items M O J)
    ∷ handler (owned_resources M O group_version_kind)
    ∷ handler (handle_mapping O values)
    ∷ handler (handle_naming O M names)
    ∷ handler (pre_flight_check O [])
    ∷ handler (inject_secret_ref O set_nested_field)
    ∷ handler (bindings_as_env M O)
    ∷ handler (bindings_as_files M O)
    ∷ handler (post_flight_check O)
    ∷ []

module _ (C : Context) where
  open C use {State, flow, close}

  finish-retry :
      (status : FlowCtrl) (r : Result (Unit {0}))
      → status.retry ≡ true
      → (finish C status r).retry ≡ true
  unfolding finish
  finish-retry status (ok _) e = e
  finish-retry status (err x) e = refl
  finish-retry status (panic x) e = refl

  -- A run whose handlers end with a request to retry is to be tried again, whatever the end of the
  -- context gives.
  process-retry :
      (hs : List (Handler C)) (s : State)
      → (run_handlers C hs fresh_flow s).0.retry ≡ true
      → (process C hs (ok s)).0.retry ≡ true
  unfolding process
  process-retry hs s e =
      let (status, s') = run_handlers C hs fresh_flow s in finish-retry status (close s').0 e

  -- The last of the handlers, after others that did not stop.
  last-retry :
      (hs : List (Handler C)) (h : Handler C) (s s' : State) (reached : FlowCtrl)
      → run_handlers C hs fresh_flow s ≡ (reached, s')
      → reached.stop ≡ false
      → (flow (invoke_handler C h s')).retry ≡ true
      → (run_handlers C (hs ++ (h ∷ [])) fresh_flow s).0.retry ≡ true
  unfolding run_handlers
  last-retry hs h s s' reached ran goes retry =
      ap (λ (r : FlowCtrl × State). r.0.retry)
        (run_handlers-append C hs (h ∷ []) fresh_flow s refl
          ∙ ap (λ (r : FlowCtrl × State). if r.0.stop then r else run_handlers C (h ∷ []) r.0 r.1)
              ran
          ∙ if-false _ goes)
      ∙ either (flow (invoke_handler C h s')).stop
    where
      t : State
      t = invoke_handler C h s'

      either :
          (b : Bool)
          → (if◌then◌else◌ {A = FlowCtrl × State} b (flow t, t) (flow t, t)).0.retry ≡ true
      either true = retry
      either false = retry

  -- A handler that stops the flow control is the last one that runs.
  pub process-stopped :
      (h : Handler C) (hs : List (Handler C)) (s : State)
      → (flow (invoke_handler C h s)).stop ≡ true
      → process C (h ∷ hs) (ok s) ≡ process C (h ∷ []) (ok s)
  unfolding process run_handlers
  process-stopped h hs s e = rw e refl

module _ (O : Operations) (L : IsLawful O) where
  open O use {State, flow, unbind_requested, has_label_selector, set_condition, delay_reprocessing}

  Halts-stop :
      (m : Act State (Unit {0})) (s : State)
      → Halts O (m s)
      → (flow (invoke_handler (pipeline_context O) (handler m) s)).stop ≡ true
  unfolding invoke_handler handler outcome retry_processing
  Halts-stop m s h = by_end (m s) h
    where
      by_end :
          (r : Progress (Unit {0}) × State)
          → Halts O r
          → (flow (invoke_handler (pipeline_context O) (λ _. outcome r) s)).stop ≡ true
      by_end (goes_on a, t) h = h
      by_end (returns, t) h = h
      by_end (panics e, t) h = ap (λ (f : FlowCtrl). f.stop) (L.flow-set_flow _ t)

  post_flight_check-retry :
      (s : State)
      → has_label_selector s ≡ true
      → (flow (invoke_handler (pipeline_context O) (handler (post_flight_check O)) s)).retry ≡ true
  unfolding post_flight_check ◌>>=◌ ◌>>◌ change look when invoke_handler handler outcome
  post_flight_check-retry s h =
      by_test (has_label_selector t) (L.has_label_selector-set_condition _ s ∙ h)
    where
      t : State
      t = set_condition (reason "ApplicationUpdated" (injection_ready conditions)) s

      by_test :
          (b : Bool)
          → b ≡ true
          → (flow (
              invoke_handler
                (pipeline_context O)
                (λ _. outcome (when b (change (delay_reprocessing none)) t))
                s)).retry
            ≡ true
      by_test true h = L.delay_reprocessing-retry none t
      by_test false h = cc

  module _ (M : Machinery) where
    -- Where unbinding is requested, a pipeline that starts with `Unbind` gives what it gives
    -- without its other handlers, also where `Unbind` panics: nothing is collected or projected
    -- again. The context is assumed to leave the flow control to its own operations
    -- (Handlers.Lawful.IsLawful).
    pub process-unbind :
        (hs : List (Handler (pipeline_context O))) (s : State)
        → unbind_requested s ≡ true
        → process (pipeline_context O) (handler (unbind M O) ∷ hs) (ok s)
          ≡ process (pipeline_context O) (handler (unbind M O) ∷ []) (ok s)
    process-unbind hs s e =
        process-stopped (pipeline_context O) (handler (unbind M O)) hs s
          (Halts-stop (unbind M O) s (unbind-Halts O L M s e))

  -- Where `PostFlightCheck` is the last of the handlers, those before it have not stopped the flow
  -- control, and the binding selects its workloads by labels, the run asks to be tried again,
  -- whether writing the results succeeds or not.
  pub process-selects :
      (hs : List (Handler (pipeline_context O))) (s s' : State) (reached : FlowCtrl)
      → run_handlers (pipeline_context O) hs fresh_flow s ≡ (reached, s')
      → reached.stop ≡ false
      → has_label_selector s' ≡ true
      → (process (pipeline_context O) (hs ++ (handler (post_flight_check O) ∷ [])) (ok s)).0.retry
        ≡ true
  process-selects hs s s' reached ran goes selects =
      process-retry (pipeline_context O) (hs ++ (handler (post_flight_check O) ∷ [])) s (
        last-retry (pipeline_context O) hs (handler (post_flight_check O)) s s' reached ran goes
          (post_flight_check-retry s' selects))
