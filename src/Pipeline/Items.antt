-- ===== src/Pipeline/Items.antt =====
-- Binding items (pkg/reconcile/pipeline/api.go).
use service_binding_operator.Base.{String, List, [], ◌∷◌}
use service_binding_operator.Base.Dict.{Dict, insert}
use service_binding_operator.Value.{Value}
use service_binding_operator.Value.Print.{sprint}

pub record BindingItem (Service : Type 0) : Type 0 where
  pub name : String
  pub value : Value
  pub source : Service

-- The loop of `AsMap`.
abbrev put_items : {Service : Type 0} → List (BindingItem Service) → Dict String → Dict String
put_items [] result = result
put_items (i ∷ items) result = put_items items (insert i.name (sprint i.value) result)

-- `AsMap`
abbrev pub as_map : {Service : Type 0} → List (BindingItem Service) → Dict String
as_map items = put_items items []
