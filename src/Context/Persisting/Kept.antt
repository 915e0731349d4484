-- ===== src/Context/Persisting/Kept.antt =====
-- Writing the binding leaves the conditions of its context as they are (`persistBinding` of
-- pkg/reconcile/pipeline/context/impl.go).
use service_binding_operator.Base.{
  ◌≡◌, refl, ◌∙◌, Bool, true, false, Option, Error, Result, ok, err, panic, ◌==◌, if◌then◌else◌,
}
use service_binding_operator.Context.State.{Environment, Impl, Run, ◌>>=◌, ask, change}
use service_binding_operator.Context.Persisting.{
  binding_gvr, write, write_conditions, persist_stored, persist_binding,
}

module _ (E : Environment) where
  open E use {client}
  open client use {World}

  -- A step that leaves the conditions of the context as they are.
  unfoldable Same {ℓ} : {A : Type ℓ} → Impl E → Result A × Impl E → Type 0
  Same i r = r.1.conditions ≡ i.conditions

  bind-Same {ℓ κ} :
      {A : Type ℓ} {B : Type κ} (m : Run E A) (k : A → Run E B) (i : Impl E)
      → Same i (m i)
      → ((a : A) (j : Impl E) → Same j (k a j))
      → Same i (◌>>=◌ E m k i)
  unfolding Same ◌>>=◌
  bind-Same {A = A} {B = B} m k i hm hk = by_result (m i) hm
    where
      by_result :
          (r : Result A × Impl E)
          → r.1.conditions ≡ i.conditions
          → (let (x, j) = r in
              elim x as (λ _. Result B × Impl E) [
                | ok a ↦ k a j
                | err e ↦ (err e, j)
                | panic e ↦ (panic e, j)
              ]).1.conditions
            ≡ i.conditions
      by_result (ok a, j) h = hk a j ∙ h
      by_result (err e, j) h = h
      by_result (panic e, j) h = h

  write-Same : (f : World → Option Error × World) (i : Impl E) → Same i (write E f i)
  unfolding Same write
  write-Same f i = refl

  ask-Same {ℓ} : {A : Type ℓ} (f : Impl E → Result A) (i : Impl E) → Same i (ask E f i)
  unfolding Same ask
  ask-Same f i = refl

  write_conditions-Same : (i : Impl E) → Same i (change E (write_conditions E) i)
  unfolding Same change
  write_conditions-Same i = refl

  persist_stored-Same : (i : Impl E) → Same i (persist_stored E i)
  unfolding persist_stored
  persist_stored-Same i = bind-Same _ _ i (write_conditions-Same i) λ _ j.
      bind-Same _ _ j (ask-Same (λ j. E.write_binding j.binding) j) λ u k.
        bind-Same _ _ k
          (write-Same (client.update_status (binding_gvr i.binding.spec) i.binding.meta.namespace u)
            k)
          λ _ l.
            write-Same (client.update (binding_gvr i.binding.spec) i.binding.meta.namespace u) l

  pub persist_binding-conditions : (i : Impl E) → (persist_binding E i).1.conditions ≡ i.conditions
  unfolding persist_binding Same
  persist_binding-conditions i = by_uid (i.binding.meta.uid == "")
    where
      by_uid :
          (b : Bool)
          → (if◌then◌else◌ {A = Result (Unit {0}) × Impl E} b
              (ok tt, i)
              (persist_stored E i)).1.conditions
            ≡ i.conditions
      by_uid true = refl
      by_uid false = persist_stored-Same i
