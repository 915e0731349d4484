-- ===== src/Pipeline/Gathered.antt =====
-- What a context gathers of the services' bindings, and the name of the secret that holds it
-- (pkg/reconcile/pipeline/context/impl.go, pkg/util/util.go).
pub mod Settled
pub mod Refs
pub mod Naming
use service_binding_operator.Base.{
  String, ◌<>◌, Bool, true, false, ◌&&◌, Option, none, some, List, [], ◌∷◌, ◌++◌, Result, ok, err,
  panic, ◌==◌, if◌then◌else◌, is_empty,
}
use service_binding_operator.Base.Dict.{Dict, merge}
use service_binding_operator.Base.Sort.{sort_by_key}
use service_binding_operator.Machinery.{Machinery}
use service_binding_operator.Pipeline.Items.{BindingItem, as_map}
use service_binding_operator.Pipeline.SecretBacked.{
  SecretBackedBindings, ObjectReference, items_of_secret, source_of_secret,
}

-- `MergeMaps`, where none is a nil map.
unfoldable pub merge_maps : (dest src : Option (Dict String)) → Option (Dict String)
unfolding merge
merge_maps none src = src
merge_maps (some dest) none = some dest
merge_maps (some dest) (some src) = some (merge dest src)

-- The fields `bindingItems` and `bindings`. The items are nil until the first one is added.
pub record Gathered (Service : Type 0) : Type 0 where
  pub binding_items : List (BindingItem Service)
  pub bindings : List (SecretBackedBindings Service)

-- The texts that go into the hash.
abbrev written : Dict String → String
written [] = ""
written ((k, v) ∷ data') = k <> (v <> written data')

-- A name that is made of the data, where `digest` is the first eight digits of the SHA-256 of a
-- text.
abbrev pub hashed_name : (digest : String → String) → (name : String) → Dict String → String
hashed_name digest name data' = name <> ("-" <> digest (written (sort_by_key data')))

abbrev pub in_namespace : String → Option ObjectReference → Option String
in_namespace namespace none = none
in_namespace namespace (some ref) = if ref.namespace == namespace then some ref.name else none

module _ {Service : Type 0} where
  abbrev pub add_binding_item : BindingItem Service → Gathered Service → Gathered Service
  add_binding_item item g = record g { binding_items = g.binding_items ++ (item ∷ []) }

  abbrev pub add_bindings : SecretBackedBindings Service → Gathered Service → Gathered Service
  add_bindings b g = record g { bindings = g.bindings ++ (b ∷ []) }

  -- The items of a result; an error is passed over.
  abbrev items_or_none : Result (List (BindingItem Service)) → List (BindingItem Service)
  items_or_none (ok items) = items
  items_or_none _ = []

  module _ (M : Machinery) where
    -- The loop over the bindings, which may keep the items that they read.
    unfoldable pub all_items :
        List (SecretBackedBindings Service)
        → List (List (BindingItem Service)) × List (SecretBackedBindings Service)
    all_items [] = ([], [])
    all_items (b ∷ bs) =
        let (r, b') = items_of_secret M b in
        let (rest, bs') = all_items bs in (items_or_none r ∷ rest, b' ∷ bs')

    abbrev concat : List (List (BindingItem Service)) → List (BindingItem Service)
    concat [] = []
    concat (items ∷ rest) = items ++ concat rest

    -- `BindingItems`
    unfoldable pub gathered_items : Gathered Service → List (BindingItem Service) × Gathered Service
    unfolding all_items
    gathered_items g =
        let (lists, bs) = all_items g.bindings in
        (concat lists ++ g.binding_items, record g { bindings = bs })

    abbrev merge_all : Dict String → List (List (BindingItem Service)) → Dict String
    merge_all data' [] = data'
    merge_all data' (items ∷ rest) = merge_all (merge data' (as_map items)) rest

    -- `bindingItemMap`
    unfoldable pub binding_item_map : Gathered Service → Dict String × Gathered Service
    unfolding all_items
    binding_item_map g =
        let (lists, bs) = all_items g.bindings in
        (merge (merge_all [] lists) (as_map g.binding_items), record g { bindings = bs })

    -- The reference of the only binding, if there is no other item.
    abbrev pub only_source : Gathered Service → Option ObjectReference
    only_source g = elim g.binding_items [
      | _ ∷ _ ↦ none
      | [] ↦ elim g.bindings [ b ∷ [] ↦ source_of_secret M b | _ ↦ none ]
    ]

    -- `bindingSecretName`: the name, and whether the secret is there already. `unbind` is the name in
    -- the status of a binding whose unbinding is requested.
    unfoldable pub binding_secret_name :
        (digest : String → String)
        → (unbind : Option String) → (name namespace : String) → Gathered Service
        → (String × Bool) × Gathered Service
    unfolding binding_item_map source_of_secret
    binding_secret_name digest (some status_name) name namespace g = ((status_name, true), g)
    binding_secret_name digest none name namespace g =
        elim (in_namespace namespace (only_source g)) [
          | some secret ↦ ((secret, true), g)
          | none ↦
              let (data', g') = binding_item_map g in ((hashed_name digest name data', false), g')
        ]
