-- ===== src/Pipeline/Gathered/Refs.antt =====
-- The items that a context has gathered, by where they are kept: the program holds pointers to
-- them, and the naming handler changes their names
-- (`BindingItems` of pkg/reconcile/pipeline/context/impl.go).
use service_binding_operator.Base.{String, ℕ, zero, suc, Option, none, some, List, [], ◌∷◌, ◌++◌}
use service_binding_operator.Machinery.{Machinery}
use service_binding_operator.Pipeline.Items.{BindingItem}
use service_binding_operator.Pipeline.SecretBacked.{SecretBackedBindings}
use service_binding_operator.Pipeline.Gathered.{Gathered, all_items}

-- An item of the context's own, or one of a binding.
pub data ItemRef : Type 0 where
  own : ℕ → ItemRef
  of_binding : (binding item : ℕ) → ItemRef

module _ {Service : Type 0} where
  abbrev own_refs : ℕ → List (BindingItem Service) → List (ItemRef × BindingItem Service)
  own_refs n [] = []
  own_refs n (i ∷ is) = (own n, i) ∷ own_refs (suc n) is

  abbrev binding_refs : ℕ → ℕ → List (BindingItem Service) → List (ItemRef × BindingItem Service)
  binding_refs b n [] = []
  binding_refs b n (i ∷ is) = (of_binding b n, i) ∷ binding_refs b (suc n) is

  abbrev all_refs : ℕ → List (List (BindingItem Service)) → List (ItemRef × BindingItem Service)
  all_refs b [] = []
  all_refs b (items ∷ rest) = binding_refs b 0 items ++ all_refs (suc b) rest

  -- The items of `BindingItems`, each with where it is kept.
  unfoldable pub item_refs :
      Machinery → Gathered Service → List (ItemRef × BindingItem Service) × Gathered Service
  unfolding all_items
  item_refs M g =
      let (lists, bs) = all_items M g.bindings in
      (all_refs 0 lists ++ own_refs 0 g.binding_items, record g { bindings = bs })

  unfoldable pub rename_nth : ℕ → String → List (BindingItem Service) → List (BindingItem Service)
  rename_nth n name [] = []
  rename_nth zero name (i ∷ is) = record i { name = name } ∷ is
  rename_nth (suc n) name (i ∷ is) = i ∷ rename_nth n name is

  abbrev rename_kept :
      ℕ → String → Option (List (BindingItem Service)) → Option (List (BindingItem Service))
  rename_kept n name none = none
  rename_kept n name (some items) = some (rename_nth n name items)

  unfoldable rename_in :
      ℕ → ℕ → String → List (SecretBackedBindings Service) → List (SecretBackedBindings Service)
  unfolding rename_nth
  rename_in b n name [] = []
  rename_in zero n name (x ∷ xs) = record x { items = rename_kept n name x.items } ∷ xs
  rename_in (suc b) n name (x ∷ xs) = x ∷ rename_in b n name xs

  -- `item.Name = name`
  unfoldable pub rename_item : ItemRef → String → Gathered Service → Gathered Service
  unfolding rename_nth rename_in
  rename_item (own n) name g = record g { binding_items = rename_nth n name g.binding_items }
  rename_item (of_binding b n) name g = record g { bindings = rename_in b n name g.bindings }
