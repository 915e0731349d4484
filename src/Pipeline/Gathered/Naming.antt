-- ===== src/Pipeline/Gathered/Naming.antt =====
-- The name of the secret when it is asked for again (`bindingSecretName` of
-- pkg/reconcile/pipeline/context/impl.go).
use service_binding_operator.Base.{
  String, ◌≡◌, refl, sym, ap, ◌∙◌, ◌⊎◌, inl, inr, Bool, true, false, Option, none, some, List, [],
  ◌∷◌, ok, err, Result, if◌then◌else◌,
}
use service_binding_operator.Base.Dict.{Dict}
use service_binding_operator.Value.{Object}
use service_binding_operator.Machinery.{Machinery, Nested, found, missing, invalid}
use service_binding_operator.Pipeline.Items.{BindingItem}
use service_binding_operator.Pipeline.SecretBacked.{
  SecretBackedBindings, ObjectReference, reference, items_of_secret, source_of_secret, decode_items,
  all_there,
}
use service_binding_operator.Pipeline.Gathered.{
  Gathered, binding_item_map, all_items, binding_secret_name, in_namespace, only_source,
  hashed_name,
}
use service_binding_operator.Pipeline.Gathered.Settled.{AllGive, binding_item_map_again}

module _ {Service : Type 0} (M : Machinery) where
  -- Reading the items of a binding leaves its secret, and keeps items that were read.
  items_of_secret-secret :
      (b : SecretBackedBindings Service) → (items_of_secret M b).1.secret ≡ b.secret
  unfolding items_of_secret
  items_of_secret-secret b = by_items b.items
    where
      with_items : Option (List (BindingItem Service)) → SecretBackedBindings Service
      with_items o = record { service = b.service; secret = b.secret; items = o }

      by_data :
          (r : Nested (Dict String))
          → (elim r as (λ _. Result (List (BindingItem Service)) × SecretBackedBindings Service) [
            | invalid e ↦ (err e, with_items none)
            | missing ↦ (ok [], with_items (some []))
            | found data' ↦
                let (r, items) = decode_items b.service data' none in (r, with_items items)
          ]).1.secret
            ≡ b.secret
      by_data (invalid e) = refl
      by_data missing = refl
      by_data (found data') = refl

      by_items :
          (o : Option (List (BindingItem Service)))
          → (items_of_secret M (with_items o)).1.secret ≡ b.secret
      by_items (some items) = refl
      by_items none = by_data (M.nested_string_map b.secret ("data" ∷ []))

  -- A source is a reference to the secret of the binding.
  source_of_secret-reference :
      (b : SecretBackedBindings Service)
      → (source_of_secret M b ≡ some (reference M b.secret)) ⊎ (source_of_secret M b ≡ none)
  unfolding source_of_secret
  source_of_secret-reference b = by_items b.items
    where
      Source : Option ObjectReference → Type 0
      Source r = (r ≡ some (reference M b.secret)) ⊎ (r ≡ none)

      by_test : (t : Bool) → Source (if t then some (reference M b.secret) else none)
      by_test true = inl refl
      by_test false = inr refl

      by_data :
          (items : List (BindingItem Service)) (r : Nested (Dict String))
          → Source (elim r [
            | found val ↦ if all_there M val items then some (reference M b.secret) else none
            | _ ↦ none
          ])
      by_data items (found val) = by_test (all_there M val items)
      by_data items missing = inr refl
      by_data items (invalid e) = inr refl

      by_items :
          (o : Option (List (BindingItem Service)))
          → Source
              (source_of_secret M (record { service = b.service; secret = b.secret; items = o }))
      by_items none = inl refl
      by_items (some items) = by_data items (M.nested_string_map b.secret ("data" ∷ []))

  -- A binding whose source is in no secret of the namespace has none there after its items are read.
  elsewhere :
      (namespace : String) (b : SecretBackedBindings Service)
      → in_namespace namespace (source_of_secret M b) ≡ none
      → in_namespace namespace (source_of_secret M (items_of_secret M b).1) ≡ none
  unfolding source_of_secret items_of_secret
  elsewhere namespace b h = by_items b.items h
    where
      with_items : Option (List (BindingItem Service)) → SecretBackedBindings Service
      with_items o = record { service = b.service; secret = b.secret; items = o }

      by_source :
          (c : SecretBackedBindings Service)
          → c.secret ≡ b.secret
          → in_namespace namespace (some (reference M b.secret)) ≡ none
          → (source_of_secret M c ≡ some (reference M c.secret)) ⊎ (source_of_secret M c ≡ none)
          → in_namespace namespace (source_of_secret M c) ≡ none
      by_source c same h (inl e) =
          ap (in_namespace namespace) (e ∙ ap (λ (o : Object). some (reference M o)) same) ∙ h
      by_source c same h (inr e) = ap (in_namespace namespace) e

      by_items :
          (o : Option (List (BindingItem Service)))
          → in_namespace namespace (source_of_secret M (with_items o)) ≡ none
          → in_namespace namespace (source_of_secret M (items_of_secret M (with_items o)).1) ≡ none
      by_items (some items) h = h
      by_items none h =
          let c = (items_of_secret M (with_items none)).1 in
          by_source c (items_of_secret-secret (with_items none)) h (source_of_secret-reference c)

  only_source-elsewhere :
      (namespace : String) (g : Gathered Service)
      → in_namespace namespace (only_source M g) ≡ none
      → in_namespace namespace (only_source M (binding_item_map M g).1) ≡ none
  unfolding binding_item_map all_items
  only_source-elsewhere namespace g h = by_lists g.binding_items g.bindings h
    where
      by_lists :
          (items : List (BindingItem Service)) (bs : List (SecretBackedBindings Service))
          → in_namespace namespace (only_source M (record { binding_items = items; bindings = bs }))
            ≡ none
          → in_namespace namespace
              (only_source M (record { binding_items = items; bindings = (all_items M bs).1 }))
            ≡ none
      by_lists (i ∷ items) bs h = refl
      by_lists [] [] h = refl
      by_lists [] (b ∷ []) h = elsewhere namespace b h
      by_lists [] (b ∷ (b' ∷ bs)) h = refl

  -- Where the items of each of the bindings can be read, the name of the secret is the same when it
  -- is asked for again, and the context does not change any more.
  pub binding_secret_name_again :
      (digest : String → String) (unbind : Option String) (name namespace : String)
      (g : Gathered Service)
      → AllGive M g.bindings
      → binding_secret_name M digest unbind name namespace
          (binding_secret_name M digest unbind name namespace g).1
        ≡ binding_secret_name M digest unbind name namespace g
  unfolding binding_secret_name
  binding_secret_name_again digest (some status_name) name namespace g h = refl
  binding_secret_name_again digest none name namespace g h =
      by_source (in_namespace namespace (only_source M g)) refl
    where
      hashed : Gathered Service → (String × Bool) × Gathered Service
      hashed g =
          ((hashed_name digest name (binding_item_map M g).0, false), (binding_item_map M g).1)

      asked : Gathered Service → (String × Bool) × Gathered Service
      asked g = binding_secret_name M digest none name namespace g

      named :
          (g : Gathered Service) (secret : String)
          → in_namespace namespace (only_source M g) ≡ some secret
          → binding_secret_name M digest none name namespace g ≡ ((secret, true), g)
      named g secret e = rw (e, binding_secret_name) refl

      unnamed :
          (g : Gathered Service)
          → in_namespace namespace (only_source M g) ≡ none
          → binding_secret_name M digest none name namespace g ≡ hashed g
      unnamed g e = rw (e, binding_secret_name) refl

      by_source :
          (o : Option String)
          → in_namespace namespace (only_source M g) ≡ o
          → asked (asked g).1 ≡ asked g
      by_source (some secret) e =
          ap (λ (r : (String × Bool) × Gathered Service). asked r.1) (named g secret e)
      by_source none e =
          ap (λ (r : (String × Bool) × Gathered Service). asked r.1) (unnamed g e)
          ∙ unnamed (binding_item_map M g).1 (only_source-elsewhere namespace g e)
          ∙ ap (λ (r : Dict String × Gathered Service). ((hashed_name digest name r.0, false), r.1))
              (binding_item_map_again M g h)
          ∙ sym (unnamed g e)

  -- A name that is not in use comes with the items read.
  pub binding_secret_name-hashed :
      (digest : String → String) (unbind : Option String) (name namespace : String)
      (g : Gathered Service)
      → AllGive M g.bindings
      → (binding_secret_name M digest unbind name namespace g).0.1 ≡ false
      → (binding_item_map M (binding_secret_name M digest unbind name namespace g).1).1
        ≡ (binding_secret_name M digest unbind name namespace g).1
  unfolding binding_secret_name
  binding_secret_name-hashed digest (some status_name) name namespace g h new = cc
  binding_secret_name-hashed digest none name namespace g h new =
      by_source (in_namespace namespace (only_source M g)) new
    where
      answer : Option String → (String × Bool) × Gathered Service
      answer o = elim o [
        | some secret ↦ ((secret, true), g)
        | none ↦
            let (data', g') = binding_item_map M g in ((hashed_name digest name data', false), g')
      ]

      by_source :
          (o : Option String)
          → (answer o).0.1 ≡ false
          → (binding_item_map M (answer o).1).1 ≡ (answer o).1
      by_source (some secret) new = cc
      by_source none new =
          ap (λ (r : Dict String × Gathered Service). r.1) (binding_item_map_again M g h)
