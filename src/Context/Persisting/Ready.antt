-- ===== src/Context/Persisting/Ready.antt =====
-- When the binding is reported to be ready (`Close` of pkg/reconcile/pipeline/context/impl.go).
use service_binding_operator.Base.{
  ◌≡◌, refl, sym, ap, ◌∙◌, Bool, true, false, Option, none, some, List, [], ◌∷◌, Error, Result, ok,
  err, panic, if◌then◌else◌,
}
use service_binding_operator.Base.Dict.{lookup, lookup-insert}
use service_binding_operator.Value.{Object}
use service_binding_operator.Apis.Conditions.{
  Condition, ConditionStatus, condition_true, condition_false, conditions, not_binding_ready, msg,
  reason, binding_ready_type,
}
use service_binding_operator.Context.Workloads.{Application, current, is_updated}
use service_binding_operator.Context.State.{Environment, Impl, Run, ◌>>=◌, ask, set_condition}
use service_binding_operator.Context.Persisting.Kept.{persist_binding-conditions}
use service_binding_operator.Context.Persisting.{
  write, persist_binding, report, update_application, update_applications, ready, processing_error,
  close,
}
use service_binding_operator.Context.Persisting.Taken.{AllTaken, update_applications-AllTaken}

module _ (E : Environment) where
  open E use {client}
  open client use {World}

  -- The condition that the binding is ready, as the context has it.
  abbrev pub IsReady : Impl E → Type 0
  IsReady i = lookup binding_ready_type i.conditions ≡ some ready

  -- The binding with a condition set has that condition.
  set_persisted :
      (c : Condition) (i : Impl E)
      → c.condition_type ≡ binding_ready_type
      → lookup binding_ready_type (persist_binding E (set_condition E c i)).1.conditions ≡ some c
  unfolding set_condition
  set_persisted c i e =
      ap (lookup binding_ready_type) (persist_binding-conditions E (set_condition E c i))
      ∙ (lookup-insert c.condition_type binding_ready_type c i.conditions ∙ rw e refl)

  -- A condition that is not true is not that of a binding that is ready.
  never_ready :
      (c : Condition) (o : Option Condition)
      → c.status ≡ condition_false
      → o ≡ some c
      → o ≡ some ready
      → ⊥
  never_ready c o e h h' = differ (sym e ∙ ap status_of (sym h ∙ h'))
    where
      status_of : Option Condition → ConditionStatus
      status_of none = condition_false
      status_of (some c) = c.status

      differ : condition_false ≡ condition_true → ⊥
      differ h = cc

  report-never_ready :
      (e : Error) (i : Impl E) → IsReady (report E "ApplicationUpdateError" e i) → ⊥
  unfolding report
  report-never_ready e i h =
      never_ready _ _ refl
        (set_persisted (msg e (reason "ApplicationUpdateError" (not_binding_ready conditions))) i
          refl)
        h

  -- A step after which the binding is not ready, unless it was so before.
  unfoldable Unmade {ℓ} : {A : Type ℓ} → Impl E → Result A × Impl E → Type 0
  Unmade i r = IsReady r.1 → IsReady i

  update_application-Unmade : (a : Application) (i : Impl E) → Unmade i (update_application E a i)
  unfolding update_application Unmade write
  update_application-Unmade a i = by_clone (E.to_unstructured (current a))
    where
      by_write :
          (r : Result (Unit {0})) (w : World)
          → let i' = record i { world = w } in
            IsReady
              (elim r as (λ _. Result (Unit {0}) × Impl E) [
                | ok _ ↦ (ok tt, i')
                | err e ↦ (err e, report E "ApplicationUpdateError" e i')
                | panic e ↦ (panic e, i')
              ]).1
            → IsReady i
      by_write (ok _) w h = h
      by_write (err e) w h = absurd (report-never_ready e (record i { world = w }) h)
      by_write (panic e) w h = h

      by_clone :
          (c : Result Object)
          → IsReady
              (elim c as (λ _. Result (Unit {0}) × Impl E) [
                | err e ↦ (err e, i)
                | panic e ↦ (panic e, i)
                | ok clone ↦
                    let (r, i') = write E (client.update a.gvr i.binding.meta.namespace clone) i in
                    elim r as (λ _. Result (Unit {0}) × Impl E) [
                      | ok _ ↦ (ok tt, i')
                      | err e ↦ (err e, report E "ApplicationUpdateError" e i')
                      | panic e ↦ (panic e, i')
                    ]
              ]).1
          → IsReady i
      by_clone (err e) h = h
      by_clone (panic e) h = h
      by_clone (ok clone) h = by_write _ _ h

  bind-Unmade {ℓ κ} :
      {A : Type ℓ} {B : Type κ} (m : Run E A) (k : A → Run E B) (i : Impl E)
      → Unmade i (m i)
      → ((a : A) (j : Impl E) → Unmade j (k a j))
      → Unmade i (◌>>=◌ E m k i)
  unfolding Unmade ◌>>=◌
  bind-Unmade {A = A} {B = B} m k i hm hk = by_result (m i) hm
    where
      by_result :
          (r : Result A × Impl E)
          → (IsReady r.1 → IsReady i)
          → IsReady
              (let (x, j) = r in
                elim x as (λ _. Result B × Impl E) [
                  | ok a ↦ k a j
                  | err e ↦ (err e, j)
                  | panic e ↦ (panic e, j)
                ]).1
          → IsReady i
      by_result (ok a, j) hm h = hm (hk a j h)
      by_result (err e, j) hm h = hm h
      by_result (panic e, j) hm h = hm h

  ask-Unmade {ℓ} : {A : Type ℓ} (f : Impl E → Result A) (i : Impl E) → Unmade i (ask E f i)
  unfolding Unmade ask
  ask-Unmade f i h = h

  either-Unmade :
      (b : Bool) (m k : Run E (Unit {0})) (i : Impl E)
      → Unmade i (m i)
      → ((j : Impl E) → Unmade j (k j))
      → Unmade i ((if b then ◌>>=◌ E m (λ _. k) else k) i)
  either-Unmade true m k i hm hk = bind-Unmade m (λ _. k) i hm (λ _. hk)
  either-Unmade false m k i hm hk = hk i

  update_applications-Unmade :
      (as' : List Application) (i : Impl E) → Unmade i (update_applications E as' i)
  unfolding update_applications
  update_applications-Unmade [] i = ask-Unmade (λ _. ok tt) i
  update_applications-Unmade (a ∷ as') i =
      either-Unmade (is_updated E.deep_equal a) (update_application E a) (update_applications E as')
        i (update_application-Unmade a i) (update_applications-Unmade as')

  -- `Close` reports that a binding is ready only where the pipeline ended without an error and the
  -- cluster took, one after the other, the update of every application of the context that counts
  -- as updated, each without an error; after that only the binding is written, with that condition.
  -- It is about a context that does not have the condition yet.
  pub close-IsReady :
      (e : Option Error) (i : Impl E)
      → (IsReady i → ⊥)
      → IsReady (close E e i).1
      → (e ≡ none)
        × (w : World) × AllTaken E i.binding.meta.namespace i.applications i.world w
        × (close E e i ≡ persist_binding E (set_condition E ready (record i { world = w })))
  unfolding close ◌>>=◌ Unmade
  close-IsReady (some e) i not_yet h =
      absurd (never_ready _ _ refl (set_persisted (processing_error e) i refl) h)
  close-IsReady none i not_yet h =
      let (w, taken, left) =
        by_result (update_applications E i.applications i)
          (update_applications-Unmade i.applications i) refl h in
      (refl, w, taken, left)
    where
      ending : Result (Unit {0}) × Impl E → Result (Unit {0}) × Impl E
      ending (x, j) = elim x as (λ _. Result (Unit {0}) × Impl E) [
        | ok _ ↦ persist_binding E (set_condition E ready j)
        | err e ↦ (err e, j)
        | panic e ↦ (panic e, j)
      ]

      by_result :
          (r : Result (Unit {0}) × Impl E)
          → (IsReady r.1 → IsReady i)
          → update_applications E i.applications i ≡ r
          → IsReady (ending r).1
          → (w : World) × AllTaken E i.binding.meta.namespace i.applications i.world w
            × (ending r ≡ persist_binding E (set_condition E ready (record i { world = w })))
      by_result (ok _, j) u eq h =
          let (w, taken, same) = update_applications-AllTaken E i.applications i j eq in
          (w, taken, ap (λ (j : Impl E). persist_binding E (set_condition E ready j)) same)
      by_result (err e, j) u eq h = absurd (not_yet (u h))
      by_result (panic e, j) u eq h = absurd (not_yet (u h))
