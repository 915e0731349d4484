-- ===== src/Context/Reading/Permitted.antt =====
-- The applications that a context reads are ones that its requester may update.
use service_binding_operator.Base.{
  String, ◌≡◌, refl, ◌⊎◌, inl, inr, Bool, true, false, Option, none, some, List, [], ◌∷◌, ◌++◌,
  Error, Result, ok, err, panic, ◌==◌, is_empty, if◌then◌else◌,
}
use service_binding_operator.Base.Dict.{Dict}
use service_binding_operator.Value.{Object}
use service_binding_operator.Mapping.{WorkloadMapping}
use service_binding_operator.Mapping.Validation.{GroupVersionResource}
use service_binding_operator.Context.Client.{
  UserInfo, Fetched, fetched, absent, failed, can_perform,
}
use service_binding_operator.Context.Workloads.{Application}
use service_binding_operator.Context.State.{
  Environment, Impl, Run, ◌>>=◌, ask, change, user_of, require,
}
use service_binding_operator.Context.Reading.{
  WorkloadRequest, workload_request, found_or_empty, new_application, add_application,
  require_update, load_named, load_items, load_selected, load_by_selector, template,
  load_applications, applications, numbers,
}

module _ (E : Environment) where
  open E use {client, machinery}
  open client use {World, get}

  abbrev namespace_of : Impl E → String
  namespace_of i = i.binding.meta.namespace

  -- The requester may update the application under a name that it has, or that it was read by.
  pub record IsPermitted (user : Option UserInfo) (namespace : String) (w : World) (a : Application)
      : Type 0 where
    pub name : String
    pub allowed : can_perform client user a.gvr name namespace "update" w ≡ true
    pub known :
        (machinery.get_name a.persisted_resource ≡ name)
        ⊎ (get a.gvr namespace name w ≡ fetched a.persisted_resource)

  abbrev pub AllPermitted : Option UserInfo → String → World → List Application → Type 0
  AllPermitted user namespace w [] = Unit {0}
  AllPermitted user namespace w (a ∷ as') =
      IsPermitted user namespace w a × AllPermitted user namespace w as'

  -- Every application of the context is permitted.
  abbrev pub HasPermitted : Impl E → Type 0
  HasPermitted i = AllPermitted (user_of E i) (namespace_of i) i.world i.applications

  AllPermitted-append :
      (user : Option UserInfo) (namespace : String) (w : World) (as' : List Application)
      (a : Application)
      → AllPermitted user namespace w as'
      → IsPermitted user namespace w a
      → AllPermitted user namespace w (as' ++ (a ∷ []))
  AllPermitted-append user namespace w [] a h p = (p, tt)
  AllPermitted-append user namespace w (b ∷ as') a (q, h) p =
      (q, AllPermitted-append user namespace w as' a h p)

  -- What a step from a context gives, also where it fails, has the property if the context does.
  unfoldable Leaves {ℓ} : {A : Type ℓ} → Impl E → Result A × Impl E → Type 0
  Leaves i r = HasPermitted i → HasPermitted r.1

  abbrev KeepsPermitted {ℓ} : {A : Type ℓ} → Run E A → Type 0
  KeepsPermitted m = (i : Impl E) → Leaves i (m i)

  bind-keeps {ℓ κ} :
      {A : Type ℓ} {B : Type κ} (m : Run E A) (k : A → Run E B) (i : Impl E)
      → Leaves i (m i)
      → ((a : A) → KeepsPermitted (k a))
      → Leaves i (◌>>=◌ E m k i)
  unfolding Leaves ◌>>=◌
  bind-keeps {A = A} {B = B} m k i hm hk h = by_result (m i) (hm h)
    where
      by_result :
          (r : Result A × Impl E)
          → HasPermitted r.1
          → HasPermitted
              (let (x, j) = r in
                elim x as (λ _. Result B × Impl E) [
                  | ok a ↦ k a j
                  | err e ↦ (err e, j)
                  | panic e ↦ (panic e, j)
                ]).1
      by_result (ok a, j) h = hk a j h
      by_result (err e, j) h = h
      by_result (panic e, j) h = h

  ask-keeps {ℓ} : {A : Type ℓ} (f : Impl E → Result A) (i : Impl E) → Leaves i (ask E f i)
  unfolding Leaves ask
  ask-keeps f i h = h

  ask-then {ℓ κ} :
      {A : Type ℓ} {B : Type κ} (f : Impl E → Result A) (k : A → Run E B) (i : Impl E)
      → ((a : A) → KeepsPermitted (k a))
      → Leaves i (◌>>=◌ E (ask E f) k i)
  ask-then f k i hk = bind-keeps (ask E f) k i (ask-keeps f i) hk

  -- What follows on a permission may use it.
  require-then {ℓ} :
      {A : Type ℓ} (gvr : GroupVersionResource) (name namespace verb : String) (refused : Error)
      (k : Run E A) (i : Impl E)
      → (can_perform client (user_of E i) gvr name namespace verb i.world ≡ true → Leaves i (k i))
      → Leaves i (◌>>=◌ E (require E gvr name namespace verb refused) (λ _. k) i)
  unfolding Leaves ◌>>=◌ require
  require-then {A = A} gvr name namespace verb refused k i hk h =
      by_test (can_perform client (user_of E i) gvr name namespace verb i.world) hk
    where
      by_test :
          (b : Bool)
          → (b ≡ true → HasPermitted i → HasPermitted (k i).1)
          → HasPermitted
              (let (x, j) =
                  if◌then◌else◌ {A = Result (Unit {0}) × Impl E} b (ok tt, i) (err refused, i) in
                elim x as (λ _. Result A × Impl E) [
                  | ok _ ↦ k j
                  | err e ↦ (err e, j)
                  | panic e ↦ (panic e, j)
                ]).1
      by_test true hk = hk refl h
      by_test false hk = h

  abbrev MayUpdate : GroupVersionResource → String → Impl E → Type 0
  MayUpdate gvr name i =
      can_perform client (user_of E i) gvr name (namespace_of i) "update" i.world ≡ true

  update-then {ℓ} :
      {A : Type ℓ} (gvr : GroupVersionResource) (name : String) (k : Run E A) (i : Impl E)
      → (MayUpdate gvr name i → Leaves i (k i))
      → Leaves i (◌>>=◌ E (require_update E gvr name) (λ _. k) i)
  unfolding require_update Leaves ◌>>=◌
  update-then gvr name k i hk = require-then gvr name (namespace_of i) "update" _ k i hk

  add-keeps :
      (a : Application) (i : Impl E)
      → IsPermitted (user_of E i) (namespace_of i) i.world a
      → Leaves i (change E (add_application E a) i)
  unfolding Leaves change user_of
  add-keeps a i p h =
      AllPermitted-append (user_of E i) (namespace_of i) i.world i.applications a h p

  load_items-keeps :
      (q : WorkloadRequest) (gvr : GroupVersionResource) (wm : WorkloadMapping) (us : List Object)
      → KeepsPermitted (load_items E q gvr wm us)
  unfolding load_items
  load_items-keeps q gvr wm [] i = ask-keeps (λ _. ok tt) i
  load_items-keeps q gvr wm (u ∷ us) i = update-then _ _ _ i λ e.
      bind-keeps _ _ _
        (add-keeps _ _ (record { name = machinery.get_name u; allowed = e; known = inl refl }))
        (λ _. load_items-keeps q gvr wm us)

  -- The object of that name, once it has been read.
  get_named-keeps :
      (q : WorkloadRequest) (gvr : GroupVersionResource) (wm : WorkloadMapping) (i : Impl E)
      → MayUpdate gvr q.name i
      → Leaves i (
          ◌>>=◌ E
            (ask E (λ i. found_or_empty (get gvr (namespace_of i) q.name i.world)))
            (λ u. change E (add_application E (new_application E q gvr wm u)))
            i)
  unfolding Leaves ◌>>=◌ ask change user_of
  get_named-keeps q gvr wm i e h = by_found (get gvr (namespace_of i) q.name i.world) refl
    where
      by_found :
          (f : Fetched Object)
          → get gvr (namespace_of i) q.name i.world ≡ f
          → HasPermitted
              (elim (found_or_empty f) as (λ _. Result (Unit {0}) × Impl E) [
                | ok u ↦ (ok tt, add_application E (new_application E q gvr wm u) i)
                | err e ↦ (err e, i)
                | panic e ↦ (panic e, i)
              ]).1
      by_found (fetched u) r =
          AllPermitted-append (user_of E i) (namespace_of i) i.world i.applications
            (new_application E q gvr wm u) h (record { name = q.name; allowed = e; known = inr r })
      by_found (absent x) r = h
      by_found (failed x) r = h

  load_named-keeps :
      (q : WorkloadRequest) (gvr : GroupVersionResource) (wm : WorkloadMapping)
      → KeepsPermitted (load_named E q gvr wm)
  unfolding load_named
  load_named-keeps q gvr wm i =
      require-then _ _ _ _ _ _ i λ _. update-then _ _ _ i λ e. get_named-keeps q gvr wm i e

  load_selected-keeps :
      (q : WorkloadRequest) (gvr : GroupVersionResource) (wm : WorkloadMapping)
      (selector : Dict String)
      → KeepsPermitted (load_selected E q gvr wm selector)
  unfolding load_selected
  load_selected-keeps q gvr wm selector i =
      require-then _ _ _ _ _ _ i
        λ _. ask-then _ _ i λ items j. ask-then _ _ j λ us. load_items-keeps q gvr wm us

  load_by_selector-keeps :
      (q : WorkloadRequest) (gvr : GroupVersionResource) (wm : WorkloadMapping)
      (selector : Option (Dict String))
      → KeepsPermitted (load_by_selector E q gvr wm selector)
  load_by_selector-keeps q gvr wm none i = ask-keeps (λ _. ok tt) i
  load_by_selector-keeps q gvr wm (some selector) i = load_selected-keeps q gvr wm selector i

  named_or_not-keeps :
      (b : Bool) (q : WorkloadRequest) (gvr : GroupVersionResource) (wm : WorkloadMapping)
      → KeepsPermitted (if b then ask E (λ _. ok tt) else load_named E q gvr wm)
  named_or_not-keeps true q gvr wm i = ask-keeps (λ _. ok tt) i
  named_or_not-keeps false q gvr wm i = load_named-keeps q gvr wm i

  load_applications-keeps : (q : WorkloadRequest) → KeepsPermitted (load_applications E q)
  unfolding load_applications template
  load_applications-keeps q i = ask-then _ _ _ λ gvr j. ask-then _ _ _ λ wm j.
      bind-keeps _ _ _ (named_or_not-keeps (q.name == "") q gvr wm j)
        λ _. load_by_selector-keeps q gvr wm q.selector

  -- Where the requester of the binding may update every application that the context knows, this
  -- is so after `Applications` too, whether it fails or not: an application is only added under a
  -- name for which the review of the cluster allowed the update.
  pub applications-HasPermitted : (i : Impl E) → HasPermitted i → HasPermitted (applications E i).1
  unfolding applications Leaves
  applications-HasPermitted i h =
      bind-keeps _ _ i (loaded (is_empty i.applications))
        (λ _ j. ask-keeps (λ j. ok (numbers 0 j.applications)) j) h
    where
      loaded :
          (b : Bool)
          → Leaves i (
              (if b
                  then load_applications E (workload_request i.binding.spec)
                  else ask E (λ _. ok tt))
                i)
      loaded true = load_applications-keeps (workload_request i.binding.spec) i
      loaded false = ask-keeps {A = Unit {0}} (λ _. ok tt) i
