-- ===== src/Context/Reading/Again.antt =====
-- Reading the applications of a binding a second time
-- (`Applications` of pkg/reconcile/pipeline/context/impl.go and spec_binding_impl.go).
use service_binding_operator.Base.{
  String, ◌≡◌, refl, sym, ap, ◌∙◌, subst, ◌⊎◌, inl, inr, Bool, true, false, ℕ, Option, none, some,
  List, [], ◌∷◌, ◌++◌, Error, Result, ok, err, panic, ◌==◌, is_empty, if◌then◌else◌, Bool-cases,
}
use service_binding_operator.Base.Dict.{Dict}
use service_binding_operator.Value.{Object}
use service_binding_operator.Mapping.{WorkloadMapping}
use service_binding_operator.Mapping.Validation.{GroupVersionResource}
use service_binding_operator.Context.Client.{can_perform}
use service_binding_operator.Context.Workloads.{Application}
use service_binding_operator.Context.State.{
  Environment, Impl, Run, ◌>>=◌, ask, change, user_of, require,
}
use service_binding_operator.Context.Reading.{
  WorkloadRequest, workload_request, add_application, require_update, load_named, load_items,
  load_selected, load_by_selector, template, load_applications, applications, numbers,
}

is_empty-append : {A : Type 0} (xs : List A) (x : A) → is_empty (xs ++ (x ∷ [])) ≡ false
is_empty-append [] x = refl
is_empty-append (y ∷ ys) x = refl

module _ (E : Environment) where
  abbrev Changed : Impl E → Impl E → Type 0
  Changed i j = (j ≡ i) ⊎ (is_empty j.applications ≡ false)

  -- A step from a context leaves it as it is, or then there is an application.
  unfoldable Fills {ℓ} : {A : Type ℓ} → Impl E → Result A × Impl E → Type 0
  Fills i r = Changed i r.1

  Changed-trans : (i j k : Impl E) → Changed i j → Changed j k → Changed i k
  Changed-trans i j k p (inr h) = inr h
  Changed-trans i j k (inl p) (inl q) = inl (q ∙ p)
  Changed-trans i j k (inr h) (inl q) = inr (ap (λ (i : Impl E). is_empty i.applications) q ∙ h)

  bind-Fills {ℓ κ} :
      {A : Type ℓ} {B : Type κ} (m : Run E A) (k : A → Run E B) (i : Impl E)
      → Fills i (m i)
      → ((a : A) (j : Impl E) → Fills j (k a j))
      → Fills i (◌>>=◌ E m k i)
  unfolding Fills ◌>>=◌
  bind-Fills {A = A} {B = B} m k i hm hk = by_result (m i) hm
    where
      by_result :
          (r : Result A × Impl E)
          → Changed i r.1
          → Changed i
              (let (x, j) = r in
                elim x as (λ _. Result B × Impl E) [
                  | ok a ↦ k a j
                  | err e ↦ (err e, j)
                  | panic e ↦ (panic e, j)
                ]).1
      by_result (ok a, j) h = Changed-trans i j (k a j).1 h (hk a j)
      by_result (err e, j) h = h
      by_result (panic e, j) h = h

  ask-Fills {ℓ} : {A : Type ℓ} (f : Impl E → Result A) (i : Impl E) → Fills i (ask E f i)
  unfolding Fills ask
  ask-Fills f i = inl refl

  ask-then {ℓ κ} :
      {A : Type ℓ} {B : Type κ} (f : Impl E → Result A) (k : A → Run E B) (i : Impl E)
      → ((a : A) (j : Impl E) → Fills j (k a j))
      → Fills i (◌>>=◌ E (ask E f) k i)
  ask-then f k i hk = bind-Fills (ask E f) k i (ask-Fills f i) hk

  require-Fills :
      (gvr : GroupVersionResource) (name namespace verb : String) (refused : Error) (i : Impl E)
      → Fills i (require E gvr name namespace verb refused i)
  unfolding Fills require
  require-Fills gvr name namespace verb refused i =
      by_test (can_perform E.client (user_of E i) gvr name namespace verb i.world)
    where
      by_test :
          (b : Bool)
          → Changed i
              (if◌then◌else◌ {A = Result (Unit {0}) × Impl E} b (ok tt, i) (err refused, i)).1
      by_test true = inl refl
      by_test false = inl refl

  require_update-Fills :
      (gvr : GroupVersionResource) (name : String) (i : Impl E)
      → Fills i (require_update E gvr name i)
  unfolding require_update Fills
  require_update-Fills gvr name i = require-Fills gvr name _ "update" _ i

  add-Fills : (a : Application) (i : Impl E) → Fills i (change E (add_application E a) i)
  unfolding Fills change
  add-Fills a i = inr (is_empty-append i.applications a)

  load_items-Fills :
      (q : WorkloadRequest) (gvr : GroupVersionResource) (wm : WorkloadMapping) (us : List Object)
      (i : Impl E)
      → Fills i (load_items E q gvr wm us i)
  unfolding load_items
  load_items-Fills q gvr wm [] i = ask-Fills (λ _. ok tt) i
  load_items-Fills q gvr wm (u ∷ us) i =
      bind-Fills _ _ i (require_update-Fills gvr (E.machinery.get_name u) i)
        λ _ j. bind-Fills _ _ j (add-Fills _ j) λ _ k. load_items-Fills q gvr wm us k

  load_named-Fills :
      (q : WorkloadRequest) (gvr : GroupVersionResource) (wm : WorkloadMapping) (i : Impl E)
      → Fills i (load_named E q gvr wm i)
  unfolding load_named
  load_named-Fills q gvr wm i = bind-Fills _ _ i (require-Fills gvr q.name _ "get" _ i) λ _ j.
      bind-Fills _ _ j (require_update-Fills gvr q.name j)
        λ _ k. ask-then _ _ k λ u l. add-Fills _ l

  load_by_selector-Fills :
      (q : WorkloadRequest) (gvr : GroupVersionResource) (wm : WorkloadMapping)
      (selector : Option (Dict String)) (i : Impl E)
      → Fills i (load_by_selector E q gvr wm selector i)
  unfolding load_selected
  load_by_selector-Fills q gvr wm none i = ask-Fills (λ _. ok tt) i
  load_by_selector-Fills q gvr wm (some selector) i =
      bind-Fills _ _ i (require-Fills gvr "" _ "list" _ i)
        λ _ j. ask-then _ _ j λ items k. ask-then _ _ k λ us. load_items-Fills q gvr wm us

  named_or_not-Fills :
      (b : Bool) (q : WorkloadRequest) (gvr : GroupVersionResource) (wm : WorkloadMapping)
      (i : Impl E)
      → Fills i ((if b then ask E (λ _. ok tt) else load_named E q gvr wm) i)
  named_or_not-Fills true q gvr wm i = ask-Fills (λ _. ok tt) i
  named_or_not-Fills false q gvr wm i = load_named-Fills q gvr wm i

  load_applications-Fills : (q : WorkloadRequest) (i : Impl E) → Fills i (load_applications E q i)
  unfolding load_applications template
  load_applications-Fills q i = ask-then _ _ i λ gvr j. ask-then _ _ j λ wm k.
      bind-Fills _ _ k (named_or_not-Fills (q.name == "") q gvr wm k)
        λ _. load_by_selector-Fills q gvr wm q.selector

  abbrev Read : Type 0
  Read = Result (List ℕ) × Impl E

  abbrev read_of : Result (Unit {0}) × Impl E → Read
  read_of (ok _, k) = (ok (numbers 0 k.applications), k)
  read_of (err e, k) = (err e, k)
  read_of (panic e, k) = (panic e, k)

  -- Where the first call loads the applications.
  applications-loaded :
      (i : Impl E)
      → is_empty i.applications ≡ true
      → applications E i ≡ read_of (load_applications E (workload_request i.binding.spec) i)
  unfolding applications ◌>>=◌ ask
  applications-loaded i e =
      rw e (by_result (load_applications E (workload_request i.binding.spec) i))
    where
      by_result :
          (r : Result (Unit {0}) × Impl E)
          → (let (x, k) = r in
              elim x as (λ _. Result (List ℕ) × Impl E) [
                | ok _ ↦ (ok (numbers 0 k.applications), k)
                | err e ↦ (err e, k)
                | panic e ↦ (panic e, k)
              ])
            ≡ read_of r
      by_result (ok _, k) = refl
      by_result (err e, k) = refl
      by_result (panic e, k) = refl

  applications-held :
      (i : Impl E)
      → is_empty i.applications ≡ false
      → applications E i ≡ (ok (numbers 0 i.applications), i)
  unfolding applications ◌>>=◌ ask
  applications-held i e = rw e refl

  -- What a call of `Applications` that succeeds gives, a second call from the context that the
  -- first one left gives again, and it leaves that context as it is.
  pub applications_again :
      (i j : Impl E) (ns : List ℕ) → applications E i ≡ (ok ns, j) → applications E j ≡ (ok ns, j)
  unfolding Fills
  applications_again i j ns h = elim (Bool-cases (is_empty i.applications)) [
    | inr e ↦ at_start (ap (λ (r : Read). r.1) (sym (applications-held i e) ∙ h))
    | inl e ↦
        by_load (load_applications E (workload_request i.binding.spec) i)
          (load_applications-Fills (workload_request i.binding.spec) i)
          (sym (applications-loaded i e) ∙ h)
  ]
    where
      at_start : i ≡ j → applications E j ≡ (ok ns, j)
      at_start same = subst (λ (k : Impl E). applications E k ≡ (ok ns, j)) same h

      by_load :
          (r : Result (Unit {0}) × Impl E)
          → Changed i r.1
          → read_of r ≡ (ok ns, j)
          → applications E j ≡ (ok ns, j)
      by_load (ok _, k) (inl same) h' = at_start (sym same ∙ ap (λ (r : Read). r.1) h')
      by_load (ok _, k) (inr some_there) h' =
          subst (λ (l : Impl E). applications E l ≡ (ok ns, j)) (ap (λ (r : Read). r.1) h')
            (applications-held k some_there ∙ h')
      by_load (err e, k) c h' = cc
      by_load (panic e, k) c h' = cc
