-- ===== src/Pipeline/Gathered/Settled.antt =====
-- Lemmas on gathering the data of a context more than once.
use service_binding_operator.Base.{
  String, ◌≡◌, refl, sym, ap, ◌∙◌, subst, Option, none, some, List, [], ◌∷◌, Result, ok, err-ne-ok,
}
use service_binding_operator.Base.Dict.{Dict, merge}
use service_binding_operator.Value.{Object}
use service_binding_operator.Machinery.{Machinery, Nested, found, missing, invalid}
use service_binding_operator.Pipeline.Items.{BindingItem, as_map}
use service_binding_operator.Pipeline.SecretBacked.{
  SecretBackedBindings, items_of_secret, secret_backed,
}
use service_binding_operator.Pipeline.SecretBacked.Cached.{items_of_secret_lem}
use service_binding_operator.Pipeline.Gathered.{
  Gathered, all_items, binding_item_map, items_or_none, merge_all,
}

module _ {Service : Type 0} (M : Machinery) where
  items_missing :
      (service : Service) (secret : Object)
      → M.nested_string_map secret ("data" ∷ []) ≡ missing
      → items_of_secret M (secret_backed service secret)
        ≡ (ok [], record { service = service; secret = secret; items = some [] })
  unfolding items_of_secret
  items_missing service secret there = rw there refl

  fresh_again :
      (service : Service) (secret : Object) (r : Nested (Dict String))
      (items : List (BindingItem Service))
      → M.nested_string_map secret ("data" ∷ []) ≡ r
      → (items_of_secret M (secret_backed service secret)).0 ≡ ok items
      → items_of_secret M (items_of_secret M (secret_backed service secret)).1
        ≡ items_of_secret M (secret_backed service secret)
  unfolding items_of_secret
  fresh_again service secret (invalid e) items there h = absurd (err-ne-ok (rw there at h))
  fresh_again service secret missing items there h =
      subst
        (λ (r : Result (List (BindingItem Service)) × SecretBackedBindings Service).
          items_of_secret M r.1 ≡ r)
        (sym (items_missing service secret there)) refl
  fresh_again service secret (found data') items there h =
      let first = ap (λ r. (r, (items_of_secret M (secret_backed service secret)).1)) h in
      let (_, again) = items_of_secret_lem M service secret data' items _ there first in
      again ∙ sym first

  -- A second call of `Items` gives what a successful first one gave.
  items_again :
      (b : SecretBackedBindings Service) (items : List (BindingItem Service))
      → (items_of_secret M b).0 ≡ ok items
      → items_of_secret M (items_of_secret M b).1 ≡ items_of_secret M b
  unfolding items_of_secret
  items_again b items h = by_items b.items h
    where
      with_items : Option (List (BindingItem Service)) → SecretBackedBindings Service
      with_items o = record { service = b.service; secret = b.secret; items = o }

      by_items :
          (o : Option (List (BindingItem Service)))
          → (items_of_secret M (with_items o)).0 ≡ ok items
          → items_of_secret M (items_of_secret M (with_items o)).1
            ≡ items_of_secret M (with_items o)
      by_items (some is) h = refl
      by_items none h =
          fresh_again b.service b.secret (M.nested_string_map b.secret ("data" ∷ [])) items refl h

  -- `Items` succeeds for each of the bindings.
  abbrev pub AllGive : List (SecretBackedBindings Service) → Type 0
  AllGive [] = Unit {0}
  AllGive (b ∷ bs) =
      ((items : List (BindingItem Service)) × ((items_of_secret M b).0 ≡ ok items)) × AllGive bs

  all_items_again :
      (bs : List (SecretBackedBindings Service))
      → AllGive bs
      → all_items M (all_items M bs).1 ≡ all_items M bs
  unfolding all_items
  all_items_again [] h = refl
  all_items_again (b ∷ bs) ((items, e), h) =
      ap
        (λ (r : Result (List (BindingItem Service)) × SecretBackedBindings Service). (
          items_or_none r.0 ∷ (all_items M (all_items M bs).1).0,
          r.1 ∷ (all_items M (all_items M bs).1).1,
        ))
        (items_again b items e)
      ∙ ap
          (λ (r : List (List (BindingItem Service)) × List (SecretBackedBindings Service)).
            (items_or_none (items_of_secret M b).0 ∷ r.0, (items_of_secret M b).1 ∷ r.1))
          (all_items_again bs h)

  -- Where the items of each of its bindings can be read, a context gives the same data for its
  -- secret when they are gathered once more, and does not change any more.
  pub binding_item_map_again :
      (g : Gathered Service)
      → AllGive g.bindings
      → binding_item_map M (binding_item_map M g).1 ≡ binding_item_map M g
  unfolding binding_item_map
  binding_item_map_again g h =
      ap
        (λ (r : List (List (BindingItem Service)) × List (SecretBackedBindings Service)).
          (merge (merge_all M [] r.0) (as_map g.binding_items), record g { bindings = r.1 }))
        (all_items_again g.bindings h)
