-- ===== src/Context/Contexts.antt =====
-- The contexts of both kinds of bindings as implementations of the interface that the handlers use
-- (Handlers.Operations): `SpecProvider` and `Provider` of pkg/reconcile/pipeline/context.
pub mod Lawful
use service_binding_operator.Base.{
  String, ℕ, zero, suc, Bool, true, false, Option, none, some, List, [], ◌∷◌, ◌++◌, Error, error,
  Result, ok, err, panic, ◌==◌, if◌then◌else◌,
}
use service_binding_operator.Base.Dict.{Dict}
use service_binding_operator.Value.{Object, text}
use service_binding_operator.Binding.Definition.{Definition}
use service_binding_operator.Workload.Edit.{Edit}
use service_binding_operator.Pipeline.Flow.{FlowCtrl, fresh_flow, retry_processing_with_delay}
use service_binding_operator.Pipeline.Items.{BindingItem}
use service_binding_operator.Pipeline.SecretBacked.{SecretBackedBindings}
use service_binding_operator.Pipeline.Gathered.{
  Gathered, add_binding_item, add_bindings, gathered_items,
}
use service_binding_operator.Pipeline.Gathered.Refs.{ItemRef, item_refs, rename_item}
use service_binding_operator.Handlers.Operations.{
  Operations, ServiceOperations, ApplicationOperations, MetaPodSpec,
}
use service_binding_operator.Context.{
  Spec, operator_spec, service_spec, binding_name, env_bindings, bind_as_files, mappings,
  naming_template, has_label_selector, unbind_requested, clean_annotations,
}
use service_binding_operator.Context.Client.{read_secret, read_config_map}
use service_binding_operator.Context.Service.{
  Service, add_binding_def, owned_resources, custom_resource_definition,
}
use service_binding_operator.Context.Service.Description.{crd_resource}
use service_binding_operator.Context.Workloads.{
  Application, secret_path, bindable_pods, edit_resource, edit_container,
}
use service_binding_operator.Context.Workloads.Places.{Place}
use service_binding_operator.Context.State.{
  Environment, Impl, ServiceBinding, user_of, set_condition,
}
use service_binding_operator.Context.Reading.{services, applications}
use service_binding_operator.Context.Persisting.{secret_name, persist_secret, close}

-- The element of that number, and its change.
unfoldable pub nth : {A : Type 0} → ℕ → List A → Option A
nth n [] = none
nth zero (x ∷ xs) = some x
nth (suc n) (x ∷ xs) = nth n xs

unfoldable pub update_nth : {A : Type 0} → ℕ → A → List A → List A
update_nth n a [] = []
update_nth zero a (x ∷ xs) = a ∷ xs
update_nth (suc n) a (x ∷ xs) = x ∷ update_nth n a xs

abbrev nil_pointer : Error
nil_pointer = error "nil pointer dereference"

module _ (E : Environment) where
  open E use {client, mapper, machinery, accessors}
  open client use {World}

  -- `impl` with its flow control
  pub record ContextState : Type 0 where
    pub flow_ctrl : FlowCtrl
    pub impl : Impl E

  -- What only the rest of the context takes part in.
  abbrev pub on_impl {ℓ} : {A : Type ℓ} → (Impl E → A × Impl E) → ContextState → A × ContextState
  on_impl f s = let (a, i) = f s.impl in (a, record s { impl = i })

  abbrev pub change_impl : (Impl E → Impl E) → ContextState → ContextState
  change_impl f s = record s { impl = f s.impl }

  abbrev put_service : ℕ → Service World → Impl E → Impl E
  put_service n sv i = record i { services = update_nth n sv i.services }

  abbrev put_application : ℕ → Application → Impl E → Impl E
  put_application n a i = record i { applications = update_nth n a i.applications }

  -- A call of a service, of an application, and of the definition of a service.
  unfoldable pub with_service :
      {A : Type 0}
      → ℕ
      → (Service World → Impl E → Result A × Service World)
      → Impl E
      → Result A × Impl E
  unfolding nth update_nth
  with_service n f i = elim (nth n i.services) [
    | none ↦ (panic nil_pointer, i)
    | some sv ↦ let (r, sv') = f sv i in (r, put_service n sv' i)
  ]

  unfoldable pub with_application :
      {A : Type 0} → ℕ → (Application → Result A × Application) → Impl E → Result A × Impl E
  unfolding nth update_nth
  with_application n f i = elim (nth n i.applications) [
    | none ↦ (panic nil_pointer, i)
    | some a ↦ let (r, a') = f a in (r, put_application n a' i)
  ]

  abbrev there : ℕ → Result Bool → Result (Option ℕ)
  there n (ok b) = ok (if b then some n else none)
  there n (err e) = err e
  there n (panic e) = panic e

  abbrev described : Service World → Result Object × Service World
  described sv = elim sv.crd [
    | none ↦ (panic nil_pointer, sv)
    | some o ↦
        elim (crd_resource E.jsonpath machinery E.set_annotations E.registry
          sv.group_version_resource o) [
            | ok o' ↦ (ok o', record sv { crd = some o' })
            | err e ↦ (err e, sv)
            | panic e ↦ (panic e, sv)
          ]
  ]

  abbrev resource_of : Option (Service World) → Object
  resource_of none = []
  resource_of (some sv) = sv.resource

  abbrev definitions_of : Option (Service World) → List Definition
  definitions_of none = []
  definitions_of (some sv) = sv.binding_definitions

  abbrev id_of : Option (Service World) → Option String
  id_of none = none
  id_of (some sv) = sv.id

  abbrev owned_of : Option (Service World) → World → Result (List Object)
  owned_of none w = panic nil_pointer
  owned_of (some sv) w = owned_resources client mapper machinery accessors sv w

  abbrev secret_path_of : Option Application → String
  secret_path_of none = ""
  secret_path_of (some a) = secret_path a

  unfoldable pub service_operations : ServiceOperations ContextState ℕ
  unfolding nth owned_resources with_service custom_resource_definition crd_resource
  service_operations = record {
    Crd = ℕ;
    resource = λ n s. resource_of (nth n s.impl.services);
    custom_resource_definition = λ n. on_impl λ i.
        let (r, i') =
          with_service n
            (λ sv i. custom_resource_definition client mapper machinery accessors sv i.world) i in
        (there n r, i');
    crd_resource = λ n. on_impl (with_service n λ sv i. described sv);
    owned_resources = λ n s. owned_of (nth n s.impl.services) s.impl.world;
    add_binding_def = λ d n.
        change_impl
          λ i. (with_service {A = Unit {0}} n (λ sv i. (ok tt, add_binding_def d sv)) i).1;
    binding_defs = λ n s. definitions_of (nth n s.impl.services);
    id = λ n s. id_of (nth n s.impl.services);
  }

  abbrev some_pods : Result (MetaPodSpec Place) → Result (Option (MetaPodSpec Place))
  some_pods (ok pods) = ok (some pods)
  some_pods (err e) = err e
  some_pods (panic e) = panic e

  unfoldable pub application_operations : ApplicationOperations ContextState ℕ
  unfolding nth with_application secret_path bindable_pods edit_resource edit_container
  application_operations = record {
    Place = Place;
    secret_path = λ n s. secret_path_of (nth n s.impl.applications);
    bindable_pods = λ n. on_impl λ i.
        let (r, i') = with_application n (bindable_pods machinery E.find_results) i in
        (some_pods r, i');
    edit = λ n e. on_impl (with_application n (edit_resource e));
    edit_at = λ n p e. on_impl (with_application n (edit_container p e));
  }

  abbrev clean : Impl E → Bool × Impl E
  clean i =
      let (cleaned, m) = clean_annotations i.binding.meta in
      (cleaned, record i { binding = record i.binding { meta = m } })

  unfoldable pub context : Operations
  unfolding service_operations application_operations services applications binding_name
      env_bindings bind_as_files mappings has_label_selector unbind_requested clean_annotations
      secret_name persist_secret close set_condition user_of read_secret read_config_map
      gathered_items item_refs rename_item naming_template retry_processing_with_delay
  context = record {
    State = ContextState;
    Service = ℕ;
    Application = ℕ;
    service = service_operations;
    application = application_operations;
    flow = λ s. s.flow_ctrl;
    set_flow = λ f s. record s { flow_ctrl = f };
    binding_name = λ s. binding_name s.impl.binding.spec s.impl.binding.meta;
    services = on_impl (services E);
    applications = on_impl (applications E);
    unbind_requested = λ s. unbind_requested s.impl.binding.meta;
    clean_annotations = on_impl clean;
    binding_secret_name = on_impl λ i. let (r, i') = secret_name E i in (r.0, i');
    bind_as_files = λ s. bind_as_files s.impl.binding.spec;
    mappings = λ s. mappings s.impl.binding.spec;
    add_binding_item =
        λ item. change_impl λ i. record i { gathered = add_binding_item item i.gathered };
    add_bindings = λ b. change_impl λ i. record i { gathered = add_bindings b i.gathered };
    binding_items = on_impl λ i.
        let (items, g) = gathered_items machinery i.gathered in (items, record i { gathered = g });
    ItemRef = ItemRef;
    item_refs =
        on_impl
          λ i. let (refs, g) = item_refs machinery i.gathered in (refs, record i { gathered = g });
    rename_item = λ r name. change_impl λ i. record i { gathered = rename_item r name i.gathered };
    naming_template = λ s. naming_template s.impl.binding.spec;
    env_bindings = λ s. env_bindings s.impl.binding.spec;
    delay_reprocessing = λ e s. record s {
      flow_ctrl = retry_processing_with_delay e (E.rate_limit s.impl.binding.meta) s.flow_ctrl;
    };
    persist_secret = on_impl (persist_secret E);
    set_condition = λ c. change_impl (set_condition E c);
    read_config_map =
        λ namespace name s. read_config_map client (user_of E s.impl) namespace name s.impl.world;
    read_secret =
        λ namespace name s. read_secret client (user_of E s.impl) namespace name s.impl.world;
    has_label_selector = λ s. has_label_selector s.impl.binding.spec;
    close = λ s. on_impl (close E s.flow_ctrl.error) s;
  }

  -- The items for the type and the provider that a binding names itself.
  abbrev own_item : (name value : String) → Gathered (Option ℕ) → Gathered (Option ℕ)
  own_item name value g =
      if value == ""
      then g
      else add_binding_item (record { name = name; value = text value; source = none }) g

  abbrev own_items : Spec → Gathered (Option ℕ) → Gathered (Option ℕ)
  own_items (operator_spec s) g = g
  own_items (service_spec s) g = own_item "provider" s.provider (own_item "type" s.type g)

  -- What the provider gives for a binding.
  unfoldable pub new_context : ServiceBinding → World → ContextState
  new_context b w = record {
    flow_ctrl = fresh_flow;
    impl = record {
      world = w;
      binding = b;
      services = [];
      applications = [];
      gathered = own_items b.spec (record { binding_items = []; bindings = [] });
      conditions = [];
      resource_mapping = none;
    };
  }
