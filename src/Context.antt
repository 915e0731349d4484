-- ===== src/Context.antt =====
-- The two kinds of service bindings as the contexts of the pipeline see them
-- (apis/binding/v1alpha1/servicebinding_types.go, apis/spec/v1beta1/servicebinding_types.go), and
-- the methods of the contexts that only look at the binding
-- (pkg/reconcile/pipeline/context/impl.go and spec_binding_impl.go).
pub mod Lookup
pub mod Client
pub mod Templates
pub mod Service
pub mod Workloads
pub mod State
pub mod Reading
pub mod Persisting
pub mod Contexts
use service_binding_operator.Base.{
  String, Bool, true, false, ◌||◌, not, Option, none, some, List, [], ◌∷◌, ◌==◌, if◌then◌else◌,
}
use service_binding_operator.Base.Dict.{Dict, lookup, insert, erase, contains}
use service_binding_operator.Handlers.Operations.{EnvBinding}

-- `metav1.ObjectMeta`
pub record Meta : Type 0 where
  pub name : String
  pub namespace : String
  pub uid : String
  pub annotations : Dict String
  pub has_deletion_timestamp : Bool

pub record Ref : Type 0 where
  pub group : String
  pub version : String
  pub kind : String
  pub resource : String
  pub name : String

-- `v1alpha1.Service`, with its `NamespacedRef`
pub record ServiceRef : Type 0 where
  pub ref : Ref
  pub namespace : Option String
  pub id : Option String

pub record BindingPath : Type 0 where
  pub containers_path : String
  pub secret_path : String

-- `v1alpha1.Application`
pub record ApplicationRef : Type 0 where
  pub ref : Ref
  pub label_selector : Option (Dict String)
  pub binding_path : Option BindingPath

-- `v1alpha1.ServiceBindingSpec`
pub record OperatorSpec : Type 0 where
  pub name : String
  pub naming_strategy : String
  pub mappings : List (String × String)
  pub services : List ServiceRef
  pub application : ApplicationRef
  pub detect_binding_resources : Bool
  pub bind_as_files : Bool

-- `ServiceBindingWorkloadReference`
pub record WorkloadReference : Type 0 where
  pub api_version : String
  pub kind : String
  pub name : String
  pub selector : Option (Dict String)
  pub containers : List String

-- `ServiceBindingServiceReference`
pub record ServiceReference : Type 0 where
  pub api_version : String
  pub kind : String
  pub name : String

pub record EnvMapping : Type 0 where
  pub name : String
  pub key : String

-- `v1beta1.ServiceBindingSpec`
pub record ServiceSpec : Type 0 where
  pub name : String
  pub type : String
  pub provider : String
  pub workload : WorkloadReference
  pub service : ServiceReference
  pub env : List EnvMapping

-- The binding that a context is for: `bindingImpl` or `specImpl`.
pub data Spec : Type 0 where
  operator_spec : OperatorSpec → Spec
  service_spec : ServiceSpec → Spec

abbrev pub mapping_annotation_key : String
mapping_annotation_key = "servicebinding.io/mapping"

-- `templates`
abbrev template_none : String
template_none = "{{ .name }}"

abbrev template_uppercase : String
template_uppercase = "{{ .service.kind | upper }}_{{ .name | upper }}"

abbrev templates : Dict String
templates =
    ("none", template_none)
    ∷ ("uppercase", template_uppercase)
    ∷ ("lowercase", "{{ .name | lower }}")
    ∷ []

-- `BindingName`
unfoldable pub binding_name : Spec → Meta → String
binding_name (operator_spec s) m = if s.name == "" then m.name else s.name
binding_name (service_spec s) m = if s.name == "" then m.name else s.name

abbrev env_bindings_of : List EnvMapping → List EnvBinding
env_bindings_of [] = []
env_bindings_of (e ∷ es) = record { var = e.name; name = e.key } ∷ env_bindings_of es

unfoldable pub env_bindings : Spec → List EnvBinding
env_bindings (operator_spec s) = []
env_bindings (service_spec s) = env_bindings_of s.env

unfoldable pub bind_as_files : Spec → Bool
bind_as_files (operator_spec s) = s.bind_as_files
bind_as_files (service_spec s) = true

-- `ServiceBindingSpec.NamingTemplate`
unfoldable pub spec_naming_template : OperatorSpec → String
unfolding lookup
spec_naming_template s =
    if s.naming_strategy == ""
    then (if s.bind_as_files then template_none else template_uppercase)
    else elim (lookup s.naming_strategy templates) [ some v ↦ v | none ↦ s.naming_strategy ]

unfoldable pub naming_template : Spec → String
unfolding spec_naming_template
naming_template (operator_spec s) = spec_naming_template s
naming_template (service_spec s) = ""

abbrev put_mappings : List (String × String) → Dict String → Dict String
put_mappings [] result = result
put_mappings ((name, value) ∷ ms) result = put_mappings ms (insert name value result)

unfoldable pub mappings : Spec → Dict String
unfolding insert
mappings (operator_spec s) = put_mappings s.mappings []
mappings (service_spec s) = []

abbrev is_given {ℓ} : {A : Type ℓ} → Option A → Bool
is_given none = false
is_given (some a) = true

unfoldable pub has_label_selector : Spec → Bool
has_label_selector (operator_spec s) = is_given s.application.label_selector
has_label_selector (service_spec s) = is_given s.workload.selector

unfoldable pub is_removed : Meta → Bool
is_removed m = m.has_deletion_timestamp

unfoldable pub unbind_requested : Meta → Bool
unfolding lookup is_removed
unbind_requested m = contains mapping_annotation_key m.annotations || is_removed m

-- `CleanAnnotations`
unfoldable pub clean_annotations : Meta → Bool × Meta
unfolding lookup erase
clean_annotations m =
    if contains mapping_annotation_key m.annotations
    then (true, record m { annotations = erase mapping_annotation_key m.annotations })
    else (false, m)
