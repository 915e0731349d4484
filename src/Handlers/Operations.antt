-- ===== src/Handlers/Operations.antt =====
-- The interfaces Context, Service, CRD and Application (pkg/reconcile/pipeline/api.go), as
-- operations on the state of a context. A pointer to a service, a custom resource definition, an
-- application or a container is a value of a type of its own.
use service_binding_operator.Base.{String, Bool, Option, List, Error, Result}
use service_binding_operator.Base.Dict.{Dict}
use service_binding_operator.Value.{Object}
use service_binding_operator.Apis.Conditions.{Condition}
use service_binding_operator.Binding.Definition.{Definition}
use service_binding_operator.Workload.Edit.{Edit}
use service_binding_operator.Workload.Container.{MetaContainer}
use service_binding_operator.Pipeline.Flow.{FlowCtrl}
use service_binding_operator.Pipeline.Items.{BindingItem}
use service_binding_operator.Pipeline.SecretBacked.{SecretBackedBindings}

-- `EnvBinding`
pub record EnvBinding : Type 0 where
  pub var : String
  pub name : String

-- `MetaPodSpec`: the containers with where their data are, and the path of the volumes.
pub record MetaPodSpec (Place : Type 0) : Type 0 where
  pub containers : List (MetaContainer × Place)
  pub volume : List String

-- `pipeline.Service` and `pipeline.CRD`
pub record ServiceOperations (S Service : Type 0) : Type 1 where
  pub Crd : Type 0
  pub resource : Service → S → Object
  pub custom_resource_definition : Service → S → Result (Option Crd) × S
  pub crd_resource : Crd → S → Result Object × S
  pub owned_resources : Service → S → Result (List Object)
  pub add_binding_def : Definition → Service → S → S
  pub binding_defs : Service → S → List Definition
  pub id : Service → S → Option String

-- `pipeline.Application`. The edits are those of the containers and of the whole resource.
pub record ApplicationOperations (S Application : Type 0) : Type 1 where
  pub Place : Type 0
  pub secret_path : Application → S → String
  pub bindable_pods : Application → S → Result (Option (MetaPodSpec Place)) × S
  pub edit : {A : Type 0} → Application → Edit A → S → Result A × S
  pub edit_at : {A : Type 0} → Application → Place → Edit A → S → Result A × S

-- `pipeline.Context`. Reads of the cluster do not change the context. The items of `BindingItems`
-- are pointers: `item_refs` gives them with the items, and `rename_item` is a write to the name.
pub record Operations : Type 1 where
  pub State : Type 0
  pub Service : Type 0
  pub Application : Type 0
  pub service : ServiceOperations State Service
  pub application : ApplicationOperations State Application
  pub flow : State → FlowCtrl
  pub set_flow : FlowCtrl → State → State
  pub binding_name : State → String
  pub services : State → Result (List Service) × State
  pub applications : State → Result (List Application) × State
  pub unbind_requested : State → Bool
  pub clean_annotations : State → Bool × State
  pub binding_secret_name : State → String × State
  pub bind_as_files : State → Bool
  pub mappings : State → Dict String
  pub add_binding_item : BindingItem (Option Service) → State → State
  pub add_bindings : SecretBackedBindings (Option Service) → State → State
  pub binding_items : State → List (BindingItem (Option Service)) × State
  pub ItemRef : Type 0
  pub item_refs : State → List (ItemRef × BindingItem (Option Service)) × State
  pub rename_item : ItemRef → (name : String) → State → State
  pub naming_template : State → String
  pub env_bindings : State → List EnvBinding
  pub delay_reprocessing : Option Error → State → State
  pub persist_secret : State → Result (Unit {0}) × State
  pub set_condition : Condition → State → State
  pub read_config_map : (namespace name : String) → State → Result Object
  pub read_secret : (namespace name : String) → State → Result Object
  pub has_label_selector : State → Bool
  pub close : State → Result (Unit {0}) × State
