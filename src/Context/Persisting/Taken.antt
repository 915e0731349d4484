-- ===== src/Context/Persisting/Taken.antt =====
-- The updates of applications that the cluster takes (`Close` of
-- pkg/reconcile/pipeline/context/impl.go).
use service_binding_operator.Base.{
  String, ◌≡◌, refl, sym, ap, ◌∙◌, Bool, true, false, Option, none, some, List, [], ◌∷◌, Error,
  Result, ok, err, panic, if◌then◌else◌,
}
use service_binding_operator.Value.{Object}
use service_binding_operator.Context.Workloads.{Application, current, is_updated}
use service_binding_operator.Context.State.{Environment, Impl, ◌>>=◌, ask}
use service_binding_operator.Context.Persisting.{
  as_result, write, report, update_application, update_applications,
}

module _ (E : Environment) where
  open E use {client}
  open client use {World}

  -- An update that the cluster took without an error, if there is one to do, and what comes after.
  abbrev pub Taken :
      (updated : Bool) → (namespace : String) → Application → (World → Type 0) → World → Type 0
  Taken false namespace a After w = After w
  Taken true namespace a After w =
      (clone : Object) × (E.to_unstructured (current a) ≡ ok clone)
      × ((client.update a.gvr namespace clone w).0 ≡ none)
      × After (client.update a.gvr namespace clone w).1

  -- From one state of the cluster to another by the updates of the applications that count as
  -- updated, one after the other, each as the application is now and taken without an error, and by
  -- no other change.
  abbrev pub AllTaken : (namespace : String) → List Application → World → World → Type 0
  AllTaken namespace [] w w' = w' ≡ w
  AllTaken namespace (a ∷ as') w w' =
      Taken (is_updated E.deep_equal a) namespace a (λ v. AllTaken namespace as' v w') w

  update_application-eq-ok :
      (a : Application) (i j : Impl E)
      → update_application E a i ≡ (ok tt, j)
      → (clone : Object) × (E.to_unstructured (current a) ≡ ok clone)
        × ((client.update a.gvr i.binding.meta.namespace clone i.world).0 ≡ none)
        × (j ≡ record i { world = (client.update a.gvr i.binding.meta.namespace clone i.world).1 })
  unfolding update_application write
  update_application-eq-ok a i j h = by_clone (E.to_unstructured (current a)) refl h
    where
      by_write :
          (r : Option Error × World)
          → (let i' = record i { world = r.1 } in
              elim (as_result r.0) as (λ _. Result (Unit {0}) × Impl E) [
                | ok _ ↦ (ok tt, i')
                | err e ↦ (err e, report E "ApplicationUpdateError" e i')
                | panic e ↦ (panic e, i')
              ])
            ≡ (ok tt, j)
          → (r.0 ≡ none) × (j ≡ record i { world = r.1 })
      by_write (none, w) h = (refl, sym (ap (λ (q : Result (Unit {0}) × Impl E). q.1) h))
      by_write (some e, w) h = cc

      by_clone :
          (c : Result Object)
          → E.to_unstructured (current a) ≡ c
          → (elim c as (λ _. Result (Unit {0}) × Impl E) [
            | err e ↦ (err e, i)
            | panic e ↦ (panic e, i)
            | ok clone ↦
                let (r, i') = write E (client.update a.gvr i.binding.meta.namespace clone) i in
                elim r as (λ _. Result (Unit {0}) × Impl E) [
                  | ok _ ↦ (ok tt, i')
                  | err e ↦ (err e, report E "ApplicationUpdateError" e i')
                  | panic e ↦ (panic e, i')
                ]
          ])
            ≡ (ok tt, j)
          → (clone : Object) × (E.to_unstructured (current a) ≡ ok clone)
            × ((client.update a.gvr i.binding.meta.namespace clone i.world).0 ≡ none)
            × (j ≡ record i {
              world = (client.update a.gvr i.binding.meta.namespace clone i.world).1;
            })
      by_clone (err e) p h = cc
      by_clone (panic e) p h = cc
      by_clone (ok clone) p h = let (took, same) = by_write _ h in (clone, p, took, same)

  -- Where the loop gives no error, that is what happened, and the context is as before but for the
  -- state of the cluster.
  pub update_applications-AllTaken :
      (as' : List Application) (i j : Impl E)
      → update_applications E as' i ≡ (ok tt, j)
      → (w : World) × AllTaken i.binding.meta.namespace as' i.world w × (j ≡ record i { world = w })
  unfolding update_applications ask ◌>>=◌
  update_applications-AllTaken [] i j h =
      (i.world, refl, sym (ap (λ (r : Result (Unit {0}) × Impl E). r.1) h))
  update_applications-AllTaken (a ∷ as') i j h =
      by_test (update_applications-AllTaken as') (is_updated E.deep_equal a) h
    where
      Rest : Type 0
      Rest =
          (i j : Impl E)
          → update_applications E as' i ≡ (ok tt, j)
          → (w : World) × AllTaken i.binding.meta.namespace as' i.world w
            × (j ≡ record i { world = w })

      by_step :
          Rest
          → (r : Result (Unit {0}) × Impl E) → update_application E a i ≡ r
          → (let (x, i') = r in
              elim x as (λ _. Result (Unit {0}) × Impl E) [
                | ok _ ↦ update_applications E as' i'
                | err e ↦ (err e, i')
                | panic e ↦ (panic e, i')
              ])
            ≡ (ok tt, j)
          → (w : World) × Taken true i.binding.meta.namespace a
              (λ v. AllTaken i.binding.meta.namespace as' v w)
              i.world
            × (j ≡ record i { world = w })
      by_step later (ok _, i') p h =
          let (clone, written, taken, same) = update_application-eq-ok a i i' p in
          let (w, rest, left) = later _ j (ap (update_applications E as') (sym same) ∙ h) in
          (w, (clone, written, taken, rest), left)
      by_step later (err e, i') p h = cc
      by_step later (panic e, i') p h = cc

      by_test :
          Rest
          → (b : Bool)
          → (if b
                then ◌>>=◌ E (update_application E a) (λ _. update_applications E as')
                else update_applications E as')
              i
            ≡ (ok tt, j)
          → (w : World) × Taken b i.binding.meta.namespace a
              (λ v. AllTaken i.binding.meta.namespace as' v w)
              i.world
            × (j ≡ record i { world = w })
      by_test later true h = by_step later (update_application E a i) refl h
      by_test later false h = later i j h
