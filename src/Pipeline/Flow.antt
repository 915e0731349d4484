-- ===== src/Pipeline/Flow.antt =====
-- The flow control that every context holds (pkg/reconcile/pipeline/context/flow_ctrl.go). A delay
-- is a number of nanoseconds.
use service_binding_operator.Base.{ℕ, Bool, true, false, Option, none, some, Error}

pub record FlowCtrl : Type 0 where
  pub retry : Bool
  pub stop : Bool
  pub error : Option Error
  pub delay : ℕ

-- `FlowStatus` has the same fields.
abbrev pub flow_status : FlowCtrl → FlowCtrl
flow_status f = f

-- A reason may be nil.
unfoldable pub retry_processing : Option Error → FlowCtrl → FlowCtrl
retry_processing reason f = record { retry = true; stop = true; error = reason; delay = 0 }

abbrev is_error : Option Error → Bool
is_error none = false
is_error (some _) = true

unfoldable pub retry_processing_with_delay : Option Error → ℕ → FlowCtrl → FlowCtrl
retry_processing_with_delay reason d f = record {
  retry = true;
  stop = is_error reason;
  error = reason;
  delay = d;
}

unfoldable pub set_error : Option Error → FlowCtrl → FlowCtrl
set_error e f = record f { error = e }

unfoldable pub stop_processing : FlowCtrl → FlowCtrl
stop_processing f = record f { stop = true }

abbrev pub fresh_flow : FlowCtrl
fresh_flow = record { retry = false; stop = false; error = none; delay = 0 }
