-- ===== src/Pipeline/SecretBacked/Cached.antt =====
-- Lemmas on the first and the second call of `Items`.
use service_binding_operator.Base.{
  String, ◌≡◌, refl, sym, ap, subst, ◌∙◌, Option, none, some, List, [], ◌∷◌, ◌++◌, Result, ok, err,
  panic, ok-injective, append-nil, append_assoc,
}
use service_binding_operator.Base.Dict.{Dict}
use service_binding_operator.Value.{text, Object}
use service_binding_operator.Machinery.{Machinery, found}
use service_binding_operator.Binding.Definition.{decode}
use service_binding_operator.Pipeline.Items.{BindingItem}
use service_binding_operator.Pipeline.SecretBacked.{
  SecretBackedBindings, or_empty, decode_items, items_of_secret, secret_backed,
}

module _ {Service : Type 0} where
  -- The items stand for the data, in their order: the name is the key, and the value is what the
  -- datum decodes to.
  abbrev pub AllDecoded : Service → Dict String → List (BindingItem Service) → Type 0
  AllDecoded service [] items = items ≡ []
  AllDecoded service ((k, v) ∷ data') items =
      (val : String) × (rest : List (BindingItem Service)) × (items
        ≡ record { name = k; value = text val; source = service } ∷ rest)
      × (decode v ≡ ok val)
      × AllDecoded service data' rest

  -- A run of the loop that succeeds appends such items.
  decode_items-AllDecoded :
      (service : Service) (data' : Dict String) (old : Option (List (BindingItem Service)))
      {items : List (BindingItem Service)} {left : Option (List (BindingItem Service))}
      → decode_items service data' old ≡ (ok items, left)
      → (new : List (BindingItem Service)) × (items ≡ or_empty old ++ new)
        × (or_empty left ≡ items)
        × AllDecoded service data' new
  unfolding decode_items
  decode_items-AllDecoded service [] old h = (
    [],
    sym (append-nil (or_empty old) ∙ ok-injective (ap (λ (r : Run). r.0) h)),
    ap (λ (r : Run). or_empty r.1) (sym h) ∙ ok-injective (ap (λ (r : Run). r.0) h),
    refl,
  )
    where
      Run : Type 0
      Run = Result (List (BindingItem Service)) × Option (List (BindingItem Service))
  decode_items-AllDecoded service ((k, v) ∷ data') old {items} {left} h =
      by_decode (decode v) refl
        (λ val r.
          decode_items-AllDecoded service data' (some (or_empty old ++ (of_value val ∷ []))) r)
        h
    where
      of_value : String → BindingItem Service
      of_value val = record { name = k; value = text val; source = service }

      by_decode :
          (r : Result String)
          → decode v ≡ r
          → ((val : String)
              → decode_items service data' (some (or_empty old ++ (of_value val ∷ [])))
                ≡ (ok items, left)
              → (new : List (BindingItem Service)) × (items
                  ≡ (or_empty old ++ (of_value val ∷ [])) ++ new)
                × (or_empty left ≡ items)
                × AllDecoded service data' new)
          → (elim r [
            | ok val ↦ decode_items service data' (some (or_empty old ++ (of_value val ∷ [])))
            | err e ↦ (err e, old)
            | panic e ↦ (panic e, old)
          ])
            ≡ (ok items, left)
          → (new : List (BindingItem Service)) × (items ≡ or_empty old ++ new)
            × (or_empty left ≡ items)
            × AllDecoded service ((k, v) ∷ data') new
      by_decode (ok val) e later h =
          let (new, there, kept, all) = later val h in
          (
            of_value val ∷ new,
            there ∙ append_assoc (or_empty old) (of_value val ∷ []) new,
            kept,
            (val, new, refl, e, all),
          )
      by_decode (err x) e later h = cc
      by_decode (panic x) e later h = cc

module _ {Service : Type 0} (M : Machinery) where
  items_found :
      (service : Service) (secret : Object) (data' : Dict String)
      → M.nested_string_map secret ("data" ∷ []) ≡ found data'
      → items_of_secret M (secret_backed service secret) ≡ (
          let (r, items) = decode_items service data' none in
          (r, record { service = service; secret = secret; items = items }))
  unfolding items_of_secret
  items_found service secret data' there = rw there refl

  -- Where a secret has data and the first call of `Items` succeeds, its items stand for the data:
  -- each has a key as its name and what the datum decodes to as its value, in the order of the
  -- data. A second call gives the same items and changes nothing.
  pub items_of_secret_lem :
      (service : Service) (secret : Object) (data' : Dict String)
      (items : List (BindingItem Service)) (s : SecretBackedBindings Service)
      → M.nested_string_map secret ("data" ∷ []) ≡ found data'
      → items_of_secret M (secret_backed service secret) ≡ (ok items, s)
      → AllDecoded service data' items × (items_of_secret M s ≡ (ok items, s))
  unfolding items_of_secret
  items_of_secret_lem service secret data' items s there h =
      by_run (decode_items service data' none) refl
        (sym (items_found service secret data' there) ∙ h)
    where
      Run : Type 0
      Run = Result (List (BindingItem Service)) × Option (List (BindingItem Service))

      after : Option (List (BindingItem Service)) → SecretBackedBindings Service
      after left = record { service = service; secret = secret; items = left }

      settled : Run → Result (List (BindingItem Service)) × SecretBackedBindings Service
      settled r = (r.0, after r.1)

      again :
          (left : Option (List (BindingItem Service)))
          → decode_items service data' none ≡ (ok items, left)
          → or_empty left ≡ items
          → items_of_secret M (after left) ≡ (ok items, after left)
      again none e kept =
          items_found service secret data' there ∙ ap (λ (r : Run). (r.0, after r.1)) e
      again (some is₀) e kept = ap (λ is. (ok is, after (some is₀))) kept

      by_run :
          (r : Run)
          → decode_items service data' none ≡ r
          → settled r ≡ (ok items, s)
          → AllDecoded service data' items × (items_of_secret M s ≡ (ok items, s))
      by_run (r, left) e same =
          let gives =
            e
            ∙ ap
                (λ (q : Result (List (BindingItem Service)) × SecretBackedBindings Service).
                  (q.0, left))
                same in
          let left_so =
            ap (λ (q : Result (List (BindingItem Service)) × SecretBackedBindings Service). q.1)
              same in
          let (new, is_new, kept, all) = decode_items-AllDecoded service data' none gives in
          (
            subst (AllDecoded service data') (sym is_new) all,
            subst (λ s. items_of_secret M s ≡ (ok items, s)) left_so (again left gives kept),
          )
