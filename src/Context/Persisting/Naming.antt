-- ===== src/Context/Persisting/Naming.antt =====
-- The name of the secret after `PersistSecret` (pkg/reconcile/pipeline/context/impl.go).
use service_binding_operator.Base.{
  String, ℕ, ◌≡◌, refl, sym, ap, ◌∙◌, subst, ◌⊎◌, inl, inr, Bool, true, false, Option, none, some,
  Result, ok, err, panic, ◌==◌, is_empty, if◌then◌else◌, ok-injective,
}
use service_binding_operator.Base.Dict.{Dict}
use service_binding_operator.Value.{Object}
use service_binding_operator.Pipeline.Gathered.{Gathered, binding_item_map, binding_secret_name}
use service_binding_operator.Pipeline.Gathered.Settled.{AllGive}
use service_binding_operator.Pipeline.Gathered.Naming.{
  binding_secret_name_again, binding_secret_name-hashed,
}
use service_binding_operator.Context.{unbind_requested}
use service_binding_operator.Context.Client.{Fetched, fetched, absent, failed, secrets}
use service_binding_operator.Context.State.{Environment, Impl, ◌>>=◌, ask}
use service_binding_operator.Context.Persisting.{
  write, secret_of, store_secret, persist_named, persist_data, persist_secret, report, secret_name,
  set_status_secret,
}

module _ (E : Environment) where
  open E use {client, machinery}
  open client use {World}

  -- A step that changes nothing in the context but the state of the cluster.
  unfoldable Outside {ℓ} : {A : Type ℓ} → Impl E → Result A × Impl E → Type 0
  Outside i r = (w : World) × (r.1 ≡ record i { world = w })

  store_secret-Outside :
      (name : String) (u : Object) (i : Impl E) → Outside i (store_secret E name u i)
  unfolding store_secret write Outside
  store_secret-Outside name u i = by_get (client.get secrets i.binding.meta.namespace name i.world)
    where
      by_get :
          (r : Fetched Object)
          → (w : World) × ((elim r as (λ _. Result (Unit {0}) × Impl E) [
            | fetched _ ↦ write E (client.update secrets i.binding.meta.namespace u) i
            | absent _ ↦ write E (client.create secrets i.binding.meta.namespace u) i
            | failed e ↦ (err e, i)
          ]).1
              ≡ record i { world = w })
      by_get (fetched o) = (_, refl)
      by_get (absent e) = (_, refl)
      by_get (failed e) = (i.world, refl)

  -- What `persistSecret` gives for a name that is not in use: that name, or none without data.
  persist_named-eq-ok :
      (name : String) (d : Dict String) (i j : Impl E) (n : String)
      → persist_named E name d i ≡ (ok n, j)
      → (w : World) × (j ≡ record i { world = w }) × ((n ≡ name) ⊎ (is_empty d ≡ true))
  unfolding persist_named ask ◌>>=◌ Outside
  persist_named-eq-ok name d i j n h = by_data (is_empty d) refl h
    where
      End : Type 0
      End = Result String × Impl E

      by_store :
          (r : Result (Unit {0}) × Impl E)
          → Outside i r
          → (let (x, k) = r in
              elim x as (λ _. End) [
                | ok _ ↦ (ok name, k)
                | err e ↦ (err e, k)
                | panic e ↦ (panic e, k)
              ])
            ≡ (ok n, j)
          → (w : World) × (j ≡ record i { world = w }) × ((n ≡ name) ⊎ (is_empty d ≡ true))
      by_store (ok _, k) (w, left) h = (
        w,
        sym (ap (λ (e : End). e.1) h) ∙ left,
        inl (sym (ok-injective (ap (λ (e : End). e.0) h))),
      )
      by_store (err e, k) o h = cc
      by_store (panic e, k) o h = cc

      by_object :
          (u : Result Object)
          → (elim u as (λ _. End) [
            | ok u ↦ ◌>>=◌ E (store_secret E name u) (λ _. ask E (λ _. ok name)) i
            | err e ↦ (err e, i)
            | panic e ↦ (panic e, i)
          ])
            ≡ (ok n, j)
          → (w : World) × (j ≡ record i { world = w }) × ((n ≡ name) ⊎ (is_empty d ≡ true))
      by_object (ok u) h = by_store (store_secret E name u i) (store_secret-Outside name u i) h
      by_object (err e) h = cc
      by_object (panic e) h = cc

      by_data :
          (b : Bool)
          → is_empty d ≡ b
          → (if b
              then (ok "", i)
              else ◌>>=◌ E
                  (ask E (λ j. E.write_secret (secret_of E j name d)))
                  (λ u. ◌>>=◌ E (store_secret E name u) λ _. ask E (λ _. ok name))
                  i)
            ≡ (ok n, j)
          → (w : World) × (j ≡ record i { world = w }) × ((n ≡ name) ⊎ (is_empty d ≡ true))
      by_data true e h = (i.world, sym (ap (λ (e : End). e.1) h), inr e)
      by_data false e h = by_object (E.write_secret (secret_of E i name d)) h

  persist_secret-eq-ok :
      (i j : Impl E)
      → persist_secret E i ≡ (ok tt, j)
      → (n : String) × (k : Impl E) × (persist_data E i ≡ (ok n, k))
        × ((if n == "" then k else set_status_secret E n k) ≡ j)
  unfolding persist_secret
  persist_secret-eq-ok i j h = by_data (persist_data E i) refl h
    where
      by_data :
          (r : Result String × Impl E)
          → persist_data E i ≡ r
          → (let (x, k) = r in
              elim x as (λ _. Result (Unit {0}) × Impl E) [
                | ok n ↦ (ok tt, if n == "" then k else set_status_secret E n k)
                | err e ↦ (err e, report E "ErrorPersistingSecret" e k)
                | panic e ↦ (panic e, k)
              ])
            ≡ (ok tt, j)
          → (n : String) × (k : Impl E) × (persist_data E i ≡ (ok n, k))
            × ((if n == "" then k else set_status_secret E n k) ≡ j)
      by_data (ok n, k) e h = (n, k, e, ap (λ (r : Result (Unit {0}) × Impl E). r.1) h)
      by_data (err x, k) e h = cc
      by_data (panic x, k) e h = cc

  -- `bindingSecretName` of a binding, from the name in its status and what is gathered.
  abbrev named : Impl E → String → Gathered (Option ℕ) → (String × Bool) × Gathered (Option ℕ)
  named i status g =
      binding_secret_name machinery E.digest
        (if unbind_requested i.binding.meta then some status else none) i.binding.meta.name
        i.binding.meta.namespace g

  abbrev here : Impl E → (String × Bool) × Gathered (Option ℕ)
  here i = named i i.binding.status_secret i.gathered

  -- The name that was asked for is given, unless it is a new one and there are no data.
  abbrev IsGiven : String → (String × Bool) × Gathered (Option ℕ) → Type 0
  IsGiven n r =
      (n ≡ r.0.0) ⊎ ((r.0.1 ≡ false) × (is_empty (binding_item_map machinery r.1).0 ≡ true))

  persist_data-eq-ok :
      (i k : Impl E) (n : String)
      → AllGive machinery i.gathered.bindings
      → persist_data E i ≡ (ok n, k)
      → (w : World) × (k ≡ record i { world = w; gathered = (here i).1 }) × IsGiven n (here i)
  unfolding persist_data secret_name
  persist_data-eq-ok i k n all h =
      by_name (here i)
        (binding_secret_name-hashed machinery E.digest _ i.binding.meta.name
          i.binding.meta.namespace i.gathered all)
        h
    where
      by_named :
          (name : String) (g : Gathered (Option ℕ))
          → (binding_item_map machinery g).1 ≡ g
          → (w : World) × (k ≡ record i { world = w; gathered = (binding_item_map machinery g).1 })
            × ((n ≡ name) ⊎ (is_empty (binding_item_map machinery g).0 ≡ true))
          → (w : World) × (k ≡ record i { world = w; gathered = g }) × IsGiven n ((name, false), g)
      by_named name g settled (w, left, given) = (
        w,
        left ∙ ap (λ (g : Gathered (Option ℕ)). record i { world = w; gathered = g }) settled,
        elim given [ inl same ↦ inl same | inr no_data ↦ inr (refl, no_data) ],
      )

      by_name :
          (r : (String × Bool) × Gathered (Option ℕ))
          → (r.0.1 ≡ false → (binding_item_map machinery r.1).1 ≡ r.1)
          → (let (d, g) = binding_item_map machinery r.1 in
              if r.0.1
              then (ok r.0.0, record i { gathered = r.1 })
              else persist_named E r.0.0 d (record i { gathered = g }))
            ≡ (ok n, k)
          → (w : World) × (k ≡ record i { world = w; gathered = r.1 }) × IsGiven n r
      by_name ((name, true), g) settled h = (
        i.world,
        sym (ap (λ (e : Result String × Impl E). e.1) h),
        inl (sym (ok-injective (ap (λ (e : Result String × Impl E). e.0) h))),
      )
      by_name ((name, false), g) settled h = by_named name g (settled refl) (
          persist_named-eq-ok name (binding_item_map machinery g).0
            (record i { gathered = (binding_item_map machinery g).1 }) k n h)

  -- The name in the status does not matter, or is the one that was given.
  name-stays :
      (i : Impl E) (n status : String)
      → AllGive machinery i.gathered.bindings
      → IsGiven n (here i)
      → (status ≡ i.binding.status_secret) ⊎ (status ≡ n)
      → (named i status (here i).1).0 ≡ (here i).0
  unfolding binding_secret_name
  name-stays i n status all given kept = by_request (unbind_requested i.binding.meta) given
    where
      asked : Bool → String → Gathered (Option ℕ) → (String × Bool) × Gathered (Option ℕ)
      asked u status g =
          binding_secret_name machinery E.digest (if u then some status else none)
            i.binding.meta.name i.binding.meta.namespace g

      to_status :
          IsGiven n ((i.binding.status_secret, true), i.gathered)
          → (status ≡ i.binding.status_secret) ⊎ (status ≡ n)
          → status ≡ i.binding.status_secret
      to_status (inr (new, no_data)) kept = cc
      to_status (inl same) (inl kept) = kept
      to_status (inl same) (inr kept) = kept ∙ same

      by_request :
          (u : Bool)
          → IsGiven n (asked u i.binding.status_secret i.gathered)
          → (asked u status (asked u i.binding.status_secret i.gathered).1).0
            ≡ (asked u i.binding.status_secret i.gathered).0
      by_request true given = ap (λ (s : String). (s, true)) (to_status given kept)
      by_request false given =
          ap (λ (r : (String × Bool) × Gathered (Option ℕ)). r.0)
            (binding_secret_name_again machinery E.digest none i.binding.meta.name
              i.binding.meta.namespace i.gathered all)

  -- Where `PersistSecret` succeeds and the items of each binding can be read, the name of the secret
  -- is the same when it is asked for afterwards, as the handlers do that mount the secret or refer
  -- to it; and the status of the binding has that name, unless the name is empty or there are no
  -- data.
  pub secret_name-persist_secret :
      (i j : Impl E)
      → AllGive machinery i.gathered.bindings
      → persist_secret E i ≡ (ok tt, j)
      → ((secret_name E j).0 ≡ (secret_name E i).0)
        × ((j.binding.status_secret ≡ (secret_name E i).0.0)
            ⊎ ((((secret_name E i).0.0 == "") ≡ true)
                ⊎ (is_empty (binding_item_map machinery j.gathered).0 ≡ true)))
  unfolding secret_name
  secret_name-persist_secret i j all h =
      let (n, k, e, last) = persist_secret-eq-ok i j h in
      let (w, left, given) = persist_data-eq-ok i k n all e in
      subst Named last (
        subst (λ (k : Impl E). Named (if n == "" then k else set_status_secret E n k)) (sym left)
          (by_text n (n == "") refl w given))
    where
      Named : Impl E → Type 0
      Named j =
          ((named j j.binding.status_secret j.gathered).0 ≡ (here i).0)
          × ((j.binding.status_secret ≡ (here i).0.0)
              ⊎ ((((here i).0.0 == "") ≡ true)
                  ⊎ (is_empty (binding_item_map machinery j.gathered).0 ≡ true)))

      by_text :
          (n : String) (b : Bool)
          → (n == "") ≡ b
          → (w : World) → IsGiven n (here i)
          → let k = record i { world = w; gathered = (here i).1 } in
            Named (if b then k else set_status_secret E n k)
      by_text n true empty w given = (
        name-stays i n i.binding.status_secret all given (inl refl),
        inr (elim given [
          | inl same ↦ inl (ap (λ (s : String). s == "") (sym same) ∙ empty)
          | inr (new, no_data) ↦ inr no_data
        ]),
      )
      by_text n false filled w given = (
        name-stays i n n all given (inr refl),
        elim given [ inl same ↦ inl same | inr (new, no_data) ↦ inr (inr no_data) ],
      )
