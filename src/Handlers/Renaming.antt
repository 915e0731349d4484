-- ===== src/Handlers/Renaming.antt =====
-- The handlers that rename the binding items and that add the items of the mappings
-- (pkg/reconcile/pipeline/handler/naming/impl.go with pkg/naming/naming.go, and
-- pkg/reconcile/pipeline/handler/mapping/impl.go), over any context.
pub mod Stopping
use service_binding_operator.Base.{
  String, Bool, Option, none, some, List, [], ◌∷◌, Error, error, Result, ok, err, panic,
}
use service_binding_operator.Base.Dict.{Dict, insert}
use service_binding_operator.Value.{Value, text, Object, object_of}
use service_binding_operator.Machinery.{Machinery}
use service_binding_operator.Apis.Conditions.{conditions, not_collection_ready, reason, msg}
use service_binding_operator.Pipeline.Flow.{set_error, stop_processing}
use service_binding_operator.Pipeline.Items.{BindingItem}
use service_binding_operator.Handlers.Act.{
  Act, ◌>>=◌, ◌>>◌, done, leave, change, look, call, attempt, each, crash,
}
use service_binding_operator.Handlers.Operations.{Operations}

-- A package of templates, with what its templates are executed on. For names it is html/template
-- with the functions `upper`, `title` and `lower`, on the data of the service and the name of the
-- item; for mappings it is text/template with the function `json`, on values by their names.
pub record Templates (Data : Type 0) : Type 1 where
  pub Template : Type 0
  pub parse : String → Result Template
  pub execute : Template → Data → Result String

-- The data of a name's template.
pub record NameData : Type 0 where
  pub service : Dict String
  pub name : String

abbrev template_error : Error
template_error = error "please check the namingStrategy template provided"

-- `GetBindingName`; the error of the template is dropped.
unfoldable pub get_binding_name :
    (T : Templates NameData)
    → T.Template
    → (service : Dict String) → (name : String) → Result String
get_binding_name T t service name = elim (T.execute t (record { service = service; name = name })) [
  | ok name' ↦ ok name'
  | err _ ↦ err template_error
  | panic e ↦ panic e
]

-- `templateData`
abbrev pub template_data : Machinery → Object → Dict String
template_data M res = ("kind", M.get_kind res) ∷ ("name", M.get_name res) ∷ []

abbrev put_values : {Source : Type 0} → List (BindingItem Source) → Dict Value → Dict Value
put_values [] vars = vars
put_values (i ∷ is) vars = put_values is (insert i.name i.value vars)

module _ (O : Operations) where
  open O use {
    State, Service, service, flow, set_flow, set_condition, item_refs, rename_item, binding_items,
    naming_template, services, mappings, add_binding_item,
  }

  -- `stop` of the naming handler
  unfoldable pub stop_naming {ℓ} : {A : Type ℓ} → Error → Act State A
  stop_naming e =
      change (λ s. set_flow (set_error (some e) (flow s)) s)
      >> (change (λ s. set_flow (stop_processing (flow s)) s)
          >> (change (
                set_condition
                  (msg e (reason "NamingStrategyError" (not_collection_ready conditions))))
              >> leave))

  -- The name that a template gives is written even where it fails, and is empty then.
  unfoldable pub write_name : O.ItemRef → Result String → Act State (Unit {0})
  unfolding stop_naming
  write_name r (ok name) = change (rename_item r name)
  write_name r (err e) = change (rename_item r "") >> stop_naming e
  write_name r (panic e) = crash e

  module _ (M : Machinery) (T : Templates NameData) where
    -- The name of an item with a source.
    unfoldable pub rename_from :
        O.ItemRef → BindingItem (Option Service) → Service → Act State (Unit {0})
    unfolding stop_naming write_name get_binding_name
    rename_from r item sv = do
      pattern ← look naming_template
      t ← attempt (λ s. (T.parse pattern, s)) stop_naming
      res ← look (service.resource sv)
      write_name r (get_binding_name T t (template_data M res) item.name)

    unfoldable pub rename_one : O.ItemRef × BindingItem (Option Service) → Act State (Unit {0})
    unfolding rename_from
    rename_one (r, item) = elim item.source [ none ↦ done | some sv ↦ rename_from r item sv ]

    -- `Handle` of the naming handler
    unfoldable pub handle_naming : Act State (Unit {0})
    unfolding each rename_one
    handle_naming = do refs ← call item_refs; each refs rename_one

  -- The values of the services that have an identifier.
  abbrev put_services : State → List Service → Dict Value → Dict Value
  put_services s [] vars = vars
  put_services s (sv ∷ svs) vars = elim (service.id sv s) [
    | none ↦ put_services s svs vars
    | some id ↦ put_services s svs (insert id (object_of (service.resource sv s)) vars)
  ]

  unfoldable pub stop_mapping {ℓ} : {A : Type ℓ} → Error → Act State A
  stop_mapping e =
      change (λ s. set_flow (stop_processing (flow s)) s)
      >> (change (λ s. set_flow (set_error (some e) (flow s)) s) >> leave)

  module _ (T : Templates (Dict Value)) where
    unfoldable pub add_mapping : Dict Value → String × String → Act State (Unit {0})
    unfolding stop_mapping
    add_mapping vars (name, pattern) = do
      t ← attempt (λ s. (T.parse pattern, s)) stop_mapping
      value ← attempt (λ s. (T.execute t vars, s)) stop_mapping
      change (add_binding_item (record { name = name; value = text value; source = none }))

    -- `Handle` of the mapping handler
    unfoldable pub handle_mapping : Act State (Unit {0})
    unfolding each add_mapping insert
    handle_mapping = do
      items ← call binding_items
      svs ← attempt services (λ _. look (λ s. []))
      vars ← look (λ s. put_values items (put_services s svs []))
      ms ← look mappings
      each ms (add_mapping vars)
