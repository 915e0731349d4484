-- ===== src/Handlers/Pipelines/Held.antt =====
-- What follows on a `PreFlightCheck` (pkg/reconcile/pipeline/handler/project/impl.go).
use service_binding_operator.Base.{String, ◌≡◌, refl, ap, ◌⊎◌, inl, inr, true, List, [], ◌∷◌, ok}
use service_binding_operator.Pipeline.Flow.{FlowCtrl, retry_processing}
use service_binding_operator.Pipeline.Process.{Handler, invoke_handler, process}
use service_binding_operator.Handlers.Act.{Progress, goes_on, returns, panics, handler, outcome}
use service_binding_operator.Handlers.Operations.{Operations}
use service_binding_operator.Handlers.Lawful.{IsLawful}
use service_binding_operator.Handlers.Discipline.{Ended}
use service_binding_operator.Handlers.Project.{pre_flight_check}
use service_binding_operator.Handlers.Project.Checked.{Passed, pre_flight_check-Passed}
use service_binding_operator.Handlers.Project.Holding.{
  stops_early, PersistFailed, pre_flight_check-Ended,
}
use service_binding_operator.Handlers.Pipelines.{pipeline_context, process-stopped}

module _ (O : Operations) (L : IsLawful O) where
  open O use {State, flow}

  -- The state in which a handler with that end leaves the pipeline.
  abbrev after : State → Progress (Unit {0}) × State → State
  after s r = invoke_handler (pipeline_context O) (λ _. outcome r) s

  pre_flight_check-after :
      (keys : List String) (s : State)
      → ((flow (after s (pre_flight_check O keys s))).stop ≡ true)
        ⊎ (PersistFailed O s ⊎ Passed O keys s (after s (pre_flight_check O keys s)))
  unfolding invoke_handler outcome retry_processing
  pre_flight_check-after keys s =
      by_end (pre_flight_check O keys s) refl (pre_flight_check-Ended O L keys s)
    where
      by_end :
          (r : Progress (Unit {0}) × State)
          → pre_flight_check O keys s ≡ r
          → PersistFailed O s ⊎ Ended (stops_early O) (flow s) r
          → ((flow (after s r)).stop ≡ true) ⊎ (PersistFailed O s ⊎ Passed O keys s (after s r))
      by_end r p (inl failed) = inr (inl failed)
      by_end (goes_on _, t) p (inr h) = inr (inr (pre_flight_check-Passed O keys s t p))
      by_end (returns, t) p (inr stopped) = inl stopped
      by_end (panics e, t) p (inr h) = inl (ap (λ (f : FlowCtrl). f.stop) (L.flow-set_flow _ t))

  -- A pipeline that starts with `PreFlightCheck` gives what it gives without its other handlers,
  -- unless persisting the secret gives an error or all is there: the secret was persisted, the
  -- applications were found and are not none, and there are binding items, every mandatory key
  -- among them. The context is assumed to leave the flow control to its own operations
  -- (Handlers.Lawful.IsLawful).
  pub pre_flight_check-holds :
      (keys : List String) (hs : List (Handler (pipeline_context O))) (s : State)
      → (process (pipeline_context O) (handler (pre_flight_check O keys) ∷ hs) (ok s)
          ≡ process (pipeline_context O) (handler (pre_flight_check O keys) ∷ []) (ok s))
        ⊎ (PersistFailed O s
            ⊎ Passed O keys s
                (invoke_handler (pipeline_context O) (handler (pre_flight_check O keys)) s))
  unfolding handler invoke_handler
  pre_flight_check-holds keys hs s = elim (pre_flight_check-after keys s) [
    | inl stopped ↦
        inl (process-stopped (pipeline_context O) (handler (pre_flight_check O keys)) hs s stopped)
    | inr rest ↦ inr rest
  ]
