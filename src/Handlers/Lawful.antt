-- ===== src/Handlers/Lawful.antt =====
-- What the handlers rely on of a context: only the flow control's own operations change it.
use service_binding_operator.Base.{String, ◌≡◌, true, Option, Error}
use service_binding_operator.Apis.Conditions.{Condition}
use service_binding_operator.Workload.Edit.{Edit}
use service_binding_operator.Binding.Definition.{Definition}
use service_binding_operator.Pipeline.Flow.{FlowCtrl}
use service_binding_operator.Pipeline.Items.{BindingItem}
use service_binding_operator.Pipeline.SecretBacked.{SecretBackedBindings}
use service_binding_operator.Handlers.Operations.{Operations}

module _ (O : Operations) where
  open O use {State, Service, Application, service, application, flow}

  pub record IsLawful : Type 1 where
    pub flow-set_flow : (f : FlowCtrl) (s : State) → flow (O.set_flow f s) ≡ f
    pub services-flow : (s : State) → flow (O.services s).1 ≡ flow s
    pub applications-flow : (s : State) → flow (O.applications s).1 ≡ flow s
    pub set_condition-flow : (c : Condition) (s : State) → flow (O.set_condition c s) ≡ flow s
    pub binding_secret_name-flow : (s : State) → flow (O.binding_secret_name s).1 ≡ flow s
    pub add_binding_item-flow :
        (i : BindingItem (Option Service)) (s : State) → flow (O.add_binding_item i s) ≡ flow s
    pub add_bindings-flow :
        (b : SecretBackedBindings (Option Service)) (s : State) → flow (O.add_bindings b s) ≡ flow s
    pub custom_resource_definition-flow :
        (sv : Service) (s : State) → flow (service.custom_resource_definition sv s).1 ≡ flow s
    pub crd_resource-flow :
        (c : service.Crd) (s : State) → flow (service.crd_resource c s).1 ≡ flow s
    pub add_binding_def-flow :
        (d : Definition) (sv : Service) (s : State) → flow (service.add_binding_def d sv s) ≡ flow s
    pub bindable_pods-flow :
        (a : Application) (s : State) → flow (application.bindable_pods a s).1 ≡ flow s
    pub edit-flow :
        {A : Type 0} (a : Application) (e : Edit A) (s : State)
        → flow (application.edit a e s).1 ≡ flow s
    pub edit_at-flow :
        {A : Type 0} (a : Application) (p : application.Place) (e : Edit A) (s : State)
        → flow (application.edit_at a p e s).1 ≡ flow s
    pub delay_reprocessing-retry :
        (e : Option Error) (s : State) → (flow (O.delay_reprocessing e s)).retry ≡ true
    pub has_label_selector-set_condition :
        (c : Condition) (s : State)
        → O.has_label_selector (O.set_condition c s) ≡ O.has_label_selector s
    pub item_refs-flow : (s : State) → flow (O.item_refs s).1 ≡ flow s
    pub rename_item-flow :
        (r : O.ItemRef) (name : String) (s : State) → flow (O.rename_item r name s) ≡ flow s
    pub binding_items-flow : (s : State) → flow (O.binding_items s).1 ≡ flow s
