-- ===== src/Pipeline/Process.antt =====
-- The run of a pipeline (pkg/reconcile/pipeline/builder/pipeline.go), for any context that holds a
-- flow control.
use service_binding_operator.Base.{
  ℕ, Bool, true, false, Option, none, some, List, [], ◌∷◌, Error, wrap, Result, ok, err, panic,
  if◌then◌else◌,
}
use service_binding_operator.Pipeline.Flow.{FlowCtrl, retry_processing, fresh_flow}

-- A context as the pipeline sees it: its flow control, a way to change that, and its end.
pub record Context : Type 1 where
  pub State : Type 0
  pub flow : State → FlowCtrl
  pub set_flow : FlowCtrl → State → State
  pub close : State → Result (Unit {0}) × State

-- A handler changes the context and returns, or panics with the context as it left it.
pub data Outcome (S : Type 0) : Type 0 where
  returned : S → Outcome S
  panicked : Error → S → Outcome S

-- What `Process` returns.
pub record Processed : Type 0 where
  pub retry : Bool
  pub delay : ℕ
  pub error : Option Error

module _ (C : Context) where
  open C use {State, flow, set_flow, close}

  abbrev pub Handler : Type 0
  Handler = State → Outcome State

  -- A panic of a handler is a request to try again.
  unfoldable pub invoke_handler : Handler → State → State
  unfolding retry_processing
  invoke_handler h s = elim (h s) [
    | returned s' ↦ s'
    | panicked e s' ↦
        set_flow (retry_processing (some (wrap "panic occurred: %v" [] e)) (flow s')) s'
  ]

  -- The loop over the handlers, with the status after the last one that ran.
  unfoldable pub run_handlers : List Handler → FlowCtrl → State → FlowCtrl × State
  unfolding invoke_handler
  run_handlers [] status s = (status, s)
  run_handlers (h ∷ hs) status s =
      let s' = invoke_handler h s in
      let rest = run_handlers hs (flow s') s' in if (flow s').stop then (flow s', s') else rest

  -- What is returned after the call of `Close`; its panic is recovered.
  unfoldable pub finish : FlowCtrl → Result (Unit {0}) → Processed
  finish status (ok _) = record { retry = status.retry; delay = status.delay; error = status.error }
  finish status (err e) = record { retry = true; delay = 0; error = some e }
  finish status (panic e) = record {
    retry = true;
    delay = 0;
    error = some (wrap "panic occurred: %v" [] e);
  }

  -- `Process` from what the provider gives for the binding.
  unfoldable pub process : List Handler → Result State → Processed × Option State
  unfolding run_handlers finish
  process hs (err e) = (record { retry = false; delay = 0; error = some e }, none)
  process hs (panic e) =
      (record { retry = true; delay = 0; error = some (wrap "panic occurred: %v" [] e) }, none)
  process hs (ok s) =
      let (status, s') = run_handlers hs fresh_flow s in
      let (r, s'') = close s' in (finish status r, some s'')
