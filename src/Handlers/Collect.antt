-- ===== src/Handlers/Collect.antt =====
-- The items of a binding value (`collectItems` of pkg/reconcile/pipeline/handler/collect/impl.go)
-- and the ways in which a collect handler reports an error.
pub mod Stages
pub mod Bindable
pub mod Offered
pub mod Reporting
pub mod Ending
pub mod Names
pub mod Flattened
use service_binding_operator.Base.{
  String, ◌<>◌, ℕ, suc, Option, some, List, [], ◌∷◌, Error, error, errorf, ◌==◌, if◌then◌else◌,
}
use service_binding_operator.Base.Decimal.{decimal}
use service_binding_operator.Value.{
  Value, null, text, number, bool, object, array, rows, Fields, end, field, Items, nil, item, Rows,
  empty, row,
}
use service_binding_operator.Apis.Conditions.{
  Condition, conditions, not_collection_ready, reason, msg,
}
use service_binding_operator.Pipeline.Flow.{retry_processing, set_error, stop_processing}
use service_binding_operator.Handlers.Act.{
  Act, goes_on, panics, ◌>>=◌, ◌>>◌, done, leave, change, look, call, attempt, not_nil, when, each,
  crash,
}
use service_binding_operator.Handlers.Operations.{Operations}

abbrev pub value_not_found : String
value_not_found = "ValueNotFound"

abbrev pub error_value_not_found : Error
error_value_not_found = error "Value not found in map"

-- `notCollectionReadyCond`
abbrev pub not_collection_ready_cond : String → Error → Condition
not_collection_ready_cond r e = msg e (reason r (not_collection_ready conditions))

-- `v.Interface()` of no value
abbrev zero_value : Error
zero_value = error "reflect: call of reflect.Value.Interface on zero Value"

-- The prefix for the keys of a map that stands at a key.
unfoldable pub map_prefix : (prefix key : String) → String
map_prefix prefix key = let p = (prefix <> key) <> "_" in if p == "_" then "" else p

-- The names of the elements of a slice.
abbrev pub indexed : String → ℕ → String
indexed name i = name <> ("_" <> decimal i)

module _ (O : Operations) where
  open O use {State, Service, flow, set_flow, add_binding_item, set_condition}

  -- `requestRetry`, and the return behind it
  abbrev pub request_retry : String → Error → State → State
  request_retry r e s =
      set_condition (not_collection_ready_cond r e)
        (set_flow (retry_processing (some e) (flow s)) s)

  unfoldable pub retry_and_leave {ℓ} : {A : Type ℓ} → String → Error → Act State A
  retry_and_leave r e = change (request_retry r e) >> leave

  -- `ctx.Error(err); ctx.StopProcessing()` behind the condition
  abbrev pub report_and_stop : String → (shown err : Error) → State → State
  report_and_stop r shown e s =
      let s' = set_condition (not_collection_ready_cond r shown) s in
      set_flow (stop_processing (set_error (some e) (flow s'))) s'

  abbrev pub add_item : Service → String → Value → State → State
  add_item service name v =
      add_binding_item (record { name = name; value = v; source = some service })

  abbrev pub collect_elements : Service → String → ℕ → Items → Act State (Unit {0})
  collect_elements service name i nil = done
  collect_elements service name i (item v vs) =
      change (add_item service (indexed name i) v) >> collect_elements service name (suc i) vs

  abbrev pub collect_rows : Service → String → ℕ → Rows → Act State (Unit {0})
  collect_rows service name i empty = done
  collect_rows service name i (row f rs) =
      change (add_item service (indexed name i) (object f)) >> collect_rows service name (suc i) rs

  -- `collectItems`. A null in a map ends the loop over that map, and only that one.
  unfoldable mutual
    unfolding map_prefix

    pub collect_items : (prefix : String) → Service → (key : String) → Value → Act State (Unit {0})
    collect_items prefix service key (object f) =
        collect_fields (map_prefix prefix key) (prefix <> key) service f
    collect_items prefix service key (array vs) = collect_elements service (prefix <> key) 0 vs
    collect_items prefix service key (rows rs) = collect_rows service (prefix <> key) 0 rs
    collect_items prefix service key null = crash zero_value
    collect_items prefix service key (text t) = change (add_item service (prefix <> key) (text t))
    collect_items prefix service key (number n) =
        change (add_item service (prefix <> key) (number n))
    collect_items prefix service key (bool b) = change (add_item service (prefix <> key) (bool b))

    pub collect_fields : (prefix name : String) → Service → Fields → Act State (Unit {0})
    collect_fields prefix name service end = done
    collect_fields prefix name service (field k null rest) = change (
        report_and_stop value_not_found (errorf "Value for key %v_%v not found" (name ∷ k ∷ []))
          error_value_not_found)
    collect_fields prefix name service (field k v rest) =
        collect_items prefix service k v >> collect_fields prefix name service rest
