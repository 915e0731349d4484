-- ===== src/Context/Contexts/Lawful.antt =====
-- The contexts meet what the handlers rely on.
use service_binding_operator.Base.{refl}
use service_binding_operator.Handlers.Lawful.{IsLawful}
use service_binding_operator.Context.State.{Environment}
use service_binding_operator.Context.Contexts.{context, service_operations, application_operations}

pub context-IsLawful : (E : Environment) → IsLawful (context E)
unfolding context service_operations application_operations
context-IsLawful E = record {
  flow-set_flow = λ f s. refl;
  services-flow = λ s. refl;
  applications-flow = λ s. refl;
  set_condition-flow = λ c s. refl;
  binding_secret_name-flow = λ s. refl;
  add_binding_item-flow = λ i s. refl;
  add_bindings-flow = λ b s. refl;
  custom_resource_definition-flow = λ sv s. refl;
  crd_resource-flow = λ c s. refl;
  add_binding_def-flow = λ d sv s. refl;
  bindable_pods-flow = λ a s. refl;
  edit-flow = λ a e s. refl;
  edit_at-flow = λ a p e s. refl;
  item_refs-flow = λ s. refl;
  rename_item-flow = λ r name s. refl;
  binding_items-flow = λ s. refl;
  delay_reprocessing-retry = λ e s. refl;
  has_label_selector-set_condition = λ c s. refl;
}
