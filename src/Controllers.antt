-- ===== src/Controllers.antt =====
-- The reconciler of bindings (controllers/common.go), with the client of the cluster and the
-- pipeline as parameters. Log lines are left out.
pub mod Finalizing
use service_binding_operator.Base.{
  String, ℕ, Bool, true, false, ◌&&◌, not, Option, none, some, List, Error, Result, ok, err, panic,
  if◌then◌else◌,
}
use service_binding_operator.Apis.Common.{maybe_add_finalizer, maybe_remove_finalizer}
use service_binding_operator.Pipeline.Process.{Processed}

-- What `Get` finds: an object, an error for which `IsNotFound` holds, or another error.
pub data Got (A : Type 0) : Type 0 where
  present : A → Got A
  not_found : Got A
  failed : Error → Got A

-- `ctrl.Result`
pub record Requeue : Type 0 where
  pub requeue : Bool
  pub requeue_after : ℕ

-- A binding as the reconciler sees it: `apis.Object`.
pub record BindingObject : Type 1 where
  pub Binding : Type 0
  pub finalizers : Binding → List String
  pub set_finalizers : List String → Binding → Binding
  pub has_deletion_timestamp : Binding → Bool

-- The cluster, and the calls of it. `update` and `process` may change the binding that they are
-- given.
pub record Cluster (B : BindingObject) : Type 1 where
  pub State : Type 0
  pub get : String → State → Got B.Binding
  pub update : B.Binding → State → Option Error × B.Binding × State
  pub process : B.Binding → State → Processed × B.Binding × State

abbrev nothing : Requeue
nothing = record { requeue = false; requeue_after = 0 }

abbrev is_nil : Option Error → Bool
is_nil none = true
is_nil (some e) = false

module _ (B : BindingObject) (C : Cluster B) where
  open B use {Binding, finalizers, set_finalizers, has_deletion_timestamp}
  open C use {State, get, update, process}

  -- What is returned after the run of the pipeline.
  abbrev answer : Processed → State → (Requeue × Option Error) × State
  answer p s = (
    (record { requeue = p.retry; requeue_after = p.delay }, if p.retry then p.error else none),
    s,
  )

  -- What follows on a call of `Update`, whose error ends the reconciliation.
  abbrev after_update :
      (Binding → State → (Requeue × Option Error) × State)
      → Option Error × Binding × State
      → (Requeue × Option Error) × State
  after_update next (some e, b, s) = ((nothing, some e), s)
  after_update next (none, b, s) = next b s

  -- The part after the run of the pipeline.
  unfoldable pub settle : Processed → Binding → State → (Requeue × Option Error) × State
  unfolding maybe_remove_finalizer
  settle p b s =
      if not p.retry && is_nil p.error && has_deletion_timestamp b
      then (let (fs, removed) = maybe_remove_finalizer (finalizers b) in
          if removed
          then after_update (λ b' s'. answer p s') (update (set_finalizers fs b) s)
          else answer p s)
      else answer p s

  unfoldable pub run : Binding → State → (Requeue × Option Error) × State
  unfolding settle
  run b s = let (p, b', s') = process b s in settle p b' s'

  -- The part after the binding was read.
  unfoldable pub reconcile_binding : Binding → State → (Requeue × Option Error) × State
  unfolding run maybe_add_finalizer
  reconcile_binding b s =
      let (fs, added) = maybe_add_finalizer (finalizers b) in
      if not (has_deletion_timestamp b) && added
      then after_update run (update (set_finalizers fs b) s)
      else run b s

  unfoldable pub reconcile : String → State → (Requeue × Option Error) × State
  unfolding reconcile_binding
  reconcile name s = elim (get name s) [
    | not_found ↦ ((nothing, none), s)
    | failed e ↦ ((nothing, some e), s)
    | present b ↦ reconcile_binding b s
  ]
