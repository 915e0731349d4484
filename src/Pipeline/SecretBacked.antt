-- ===== src/Pipeline/SecretBacked.antt =====
-- Bindings whose data are those of a secret (pkg/reconcile/pipeline/secretbackedbindings.go).
pub mod Cached
use service_binding_operator.Base.{
  String, Bool, true, false, ◌&&◌, Option, none, some, List, [], ◌∷◌, ◌++◌, Error, Result, ok, err,
  panic, if◌then◌else◌,
}
use service_binding_operator.Base.Dict.{Dict, contains}
use service_binding_operator.Value.{text, Object}
use service_binding_operator.Machinery.{Machinery, Nested, found, missing, invalid}
use service_binding_operator.Binding.Definition.{decode}
use service_binding_operator.Pipeline.Items.{BindingItem}

-- The items are nil (`none`) until the first call of `Items`.
pub record SecretBackedBindings (Service : Type 0) : Type 0 where
  pub service : Service
  pub secret : Object
  pub items : Option (List (BindingItem Service))

-- `corev1.ObjectReference`
pub record ObjectReference : Type 0 where
  pub kind : String
  pub api_version : String
  pub name : String
  pub namespace : String

abbrev pub reference : Machinery → Object → ObjectReference
reference M o = record {
  kind = M.get_kind o;
  api_version = M.get_api_version o;
  name = M.get_name o;
  namespace = M.get_namespace o;
}

module _ {Service : Type 0} where
  -- `&SecretBackedBindings{Service: service, Secret: secret}`
  abbrev pub secret_backed : Service → Object → SecretBackedBindings Service
  secret_backed service secret = record { service = service; secret = secret; items = none }

  -- A nil slice has no elements.
  abbrev pub or_empty : Option (List (BindingItem Service)) → List (BindingItem Service)
  or_empty none = []
  or_empty (some items) = items

  -- The loop over the data. It appends to the field, so items that were decoded before an error
  -- stay there.
  unfoldable pub decode_items :
      Service
      → Dict String
      → Option (List (BindingItem Service))
      → Result (List (BindingItem Service)) × Option (List (BindingItem Service))
  decode_items service [] items = (ok (or_empty items), items)
  decode_items service ((k, v) ∷ data') items = elim (decode v) [
    | ok val ↦
        decode_items service data'
          (some (or_empty items ++ (record { name = k; value = text val; source = service } ∷ [])))
    | err e ↦ (err e, items)
    | panic e ↦ (panic e, items)
  ]

  module _ (M : Machinery) where
    -- `Items`
    unfoldable pub items_of_secret :
        SecretBackedBindings Service
        → Result (List (BindingItem Service)) × SecretBackedBindings Service
    unfolding decode_items
    items_of_secret s = elim s.items [
      | some items ↦ (ok items, s)
      | none ↦ elim (M.nested_string_map s.secret ("data" ∷ [])) [
        | invalid e ↦ (err e, s)
        | missing ↦ (ok [], record s { items = some [] })
        | found data' ↦
            let (r, items) = decode_items s.service data' none in (r, record s { items = items })
      ]
    ]

    -- Every item has a name that is a key of the data.
    abbrev pub all_there : Dict String → List (BindingItem Service) → Bool
    all_there val [] = true
    all_there val (i ∷ items) = contains i.name val && all_there val items

    -- `Source`, where `none` is nil.
    unfoldable pub source_of_secret : SecretBackedBindings Service → Option ObjectReference
    source_of_secret s = elim s.items [
      | none ↦ some (reference M s.secret)
      | some items ↦ elim (M.nested_string_map s.secret ("data" ∷ [])) [
        | found val ↦ if all_there val items then some (reference M s.secret) else none
        | _ ↦ none
      ]
    ]
