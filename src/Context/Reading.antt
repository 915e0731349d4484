-- ===== src/Context/Reading.antt =====
-- The services and the applications of a binding, read from the cluster on behalf of its requester
-- (`Services` and `Applications` of pkg/reconcile/pipeline/context/impl.go and
-- spec_binding_impl.go).
pub mod Permitted
pub mod Again
use service_binding_operator.Base.{
  String, ℕ, suc, Bool, false, Option, none, some, List, [], ◌∷◌, ◌++◌, Error, errorf, error, wrap,
  Result, ok, err, ◌==◌, is_empty, if◌then◌else◌,
}
use service_binding_operator.Base.Dict.{Dict}
use service_binding_operator.Value.{Object}
use service_binding_operator.Mapping.{WorkloadMapping}
use service_binding_operator.Mapping.Validation.{GroupVersionResource}
use service_binding_operator.Context.{Spec, operator_spec, service_spec, ServiceRef, BindingPath}
use service_binding_operator.Context.Lookup.{
  Referable, by_ref, by_service, by_workload, resource_for_referable,
}
use service_binding_operator.Context.Client.{Fetched, fetched, absent, failed, fetched_or_error}
use service_binding_operator.Context.Service.{Service, build_service}
use service_binding_operator.Context.Templates.{workload_resource_template}
use service_binding_operator.Context.Workloads.{Application}
use service_binding_operator.Context.State.{
  Environment, Impl, Run, ◌>>=◌, ask, change, user_of, require,
}

-- What a binding asks for: a service, or its workloads.
pub record ServiceRequest : Type 0 where
  pub ref : Referable
  pub name : String
  pub namespace : Option String
  pub id : Option String

pub record WorkloadRequest : Type 0 where
  pub ref : Referable
  pub name : String
  pub selector : Option (Dict String)
  pub binding_path : Option BindingPath
  pub containers : List String

abbrev pub service_request : ServiceRef → ServiceRequest
service_request r = record {
  ref = by_ref r.ref;
  name = r.ref.name;
  namespace = r.namespace;
  id = r.id;
}

abbrev pub service_requests : List ServiceRef → List ServiceRequest
service_requests [] = []
service_requests (r ∷ rs) = service_request r ∷ service_requests rs

-- The services that the two kinds of bindings ask for.
unfoldable pub requests : Spec → List ServiceRequest
requests (operator_spec s) = service_requests s.services
requests (service_spec s) =
    record { ref = by_service s.service; name = s.service.name; namespace = none; id = none } ∷ []

unfoldable pub workload_request : Spec → WorkloadRequest
workload_request (operator_spec s) = record {
  ref = by_ref s.application.ref;
  name = s.application.ref.name;
  selector = s.application.label_selector;
  binding_path = s.application.binding_path;
  containers = [];
}
workload_request (service_spec s) = record {
  ref = by_workload s.workload;
  name = s.workload.name;
  selector = s.workload.selector;
  binding_path = none;
  containers = s.workload.containers;
}

abbrev looks_for_owned : Spec → Bool
looks_for_owned (operator_spec s) = s.detect_binding_resources
looks_for_owned (service_spec s) = false

abbrev pub containers_path : Option BindingPath → String
containers_path none = ""
containers_path (some p) = p.containers_path

abbrev or_namespace : Option String → String → String
or_namespace none d = d
or_namespace (some n) d = n

abbrev no_applications : Error
no_applications = error "cannot find application resources for the given reference"

-- `emptyApplicationsErr` around an error
abbrev pub empty_applications : Error → Error
empty_applications e = wrap "cannot find application resources for the given reference: " [] e

abbrev pub found_or_empty : {A : Type 0} → Fetched A → Result A
found_or_empty (fetched o) = ok o
found_or_empty (absent e) = err (empty_applications e)
found_or_empty (failed e) = err (empty_applications e)

-- The numbers of a list's elements.
abbrev pub numbers : {A : Type 0} → ℕ → List A → List ℕ
numbers n [] = []
numbers n (x ∷ xs) = n ∷ numbers (suc n) xs

module _ (E : Environment) where
  open E use {client, mapper, machinery, accessors}
  open client use {World, get, list}

  abbrev namespace_of : Impl E → String
  namespace_of i = i.binding.meta.namespace

  abbrev add_service : Service World → Impl E → Impl E
  add_service s i = record i { services = i.services ++ (s ∷ []) }

  -- The body of the loop over the services: what was added before an error stays.
  unfoldable pub load_service : ServiceRequest → Run E (Unit {0})
  unfolding ask change require resource_for_referable build_service
  load_service q i =
      let namespace = or_namespace q.namespace (namespace_of i) in
      ◌>>=◌ E (ask E (λ _. resource_for_referable mapper q.ref))
        (λ gvr.
          ◌>>=◌ E
            (require E gvr q.name namespace "get"
              (errorf "cannot read service %s in namespace %s" (q.name ∷ namespace ∷ [])))
            λ _. ◌>>=◌ E (ask E (λ i. fetched_or_error (get gvr namespace q.name i.world))) λ u.
              ◌>>=◌ E
                (ask E (λ i.
                  build_service client mapper machinery accessors
                    (record {
                      crd_reader = none;
                      look_for_owned_resources = looks_for_owned i.binding.spec;
                    })
                    q.id none u))
                λ s. change E (add_service s))
        i

  unfoldable pub load_services : List ServiceRequest → Run E (Unit {0})
  unfolding load_service ask
  load_services [] = ask E (λ _. ok tt)
  load_services (q ∷ qs) = ◌>>=◌ E (load_service q) λ _. load_services qs

  -- `Services`
  unfoldable pub services : Run E (List ℕ)
  unfolding load_services ask
  services i =
      ◌>>=◌ E
        (if is_empty i.services
          then load_services (requests i.binding.spec)
          else ask E (λ _. ok tt))
        (λ _. ask E (λ j. ok (numbers 0 j.services))) i

  abbrev pub new_application :
      WorkloadRequest → GroupVersionResource → WorkloadMapping → Object → Application
  new_application q gvr wm u = record {
    gvr = gvr;
    persisted_resource = u;
    resource = none;
    binding_path = q.binding_path;
    bindable_container_names = q.containers;
    resource_mapping = wm;
  }

  abbrev pub add_application : Application → Impl E → Impl E
  add_application a i = record i { applications = i.applications ++ (a ∷ []) }

  -- `canPerform(…, "update")` for an application of that name.
  unfoldable pub require_update : GroupVersionResource → (name : String) → Run E (Unit {0})
  unfolding require
  require_update gvr name i =
      require E gvr name (namespace_of i) "update"
        (errorf "cannot update application resource %s in namespace %s"
          (name ∷ namespace_of i ∷ []))
        i

  -- The application of the name that the binding gives.
  unfoldable pub load_named :
      WorkloadRequest → GroupVersionResource → WorkloadMapping → Run E (Unit {0})
  unfolding require require_update ask change
  load_named q gvr wm i =
      ◌>>=◌ E
        (require E gvr q.name (namespace_of i) "get"
          (errorf "cannot read application %s in namespace %s" (q.name ∷ namespace_of i ∷ [])))
        (λ _. ◌>>=◌ E (require_update gvr q.name) λ _.
          ◌>>=◌ E (ask E (λ i. found_or_empty (get gvr (namespace_of i) q.name i.world)))
            λ u. change E (add_application (new_application q gvr wm u)))
        i

  -- The loop over the applications that the labels select.
  unfoldable pub load_items :
      WorkloadRequest → GroupVersionResource → WorkloadMapping → List Object → Run E (Unit {0})
  unfolding require_update ask change
  load_items q gvr wm [] = ask E (λ _. ok tt)
  load_items q gvr wm (u ∷ us) = ◌>>=◌ E (require_update gvr (machinery.get_name u)) λ _.
      ◌>>=◌ E (change E (add_application (new_application q gvr wm u))) λ _. load_items q gvr wm us

  abbrev pub some_items : List Object → Result (List Object)
  some_items [] = err no_applications
  some_items (u ∷ us) = ok (u ∷ us)

  unfoldable pub load_selected :
      WorkloadRequest
      → GroupVersionResource
      → WorkloadMapping
      → (selector : Dict String) → Run E (Unit {0})
  unfolding require load_items ask
  load_selected q gvr wm selector i =
      ◌>>=◌ E
        (require E gvr "" (namespace_of i) "list"
          (errorf "cannot read application in namespace %s" (namespace_of i ∷ [])))
        (λ _.
          ◌>>=◌ E (ask E (λ i. fetched_or_error (list gvr (namespace_of i) selector i.world)))
            λ items. ◌>>=◌ E (ask E (λ _. some_items items)) λ us. load_items q gvr wm us)
        i

  abbrev pub load_by_selector :
      WorkloadRequest
      → GroupVersionResource
      → WorkloadMapping
      → Option (Dict String)
      → Run E (Unit {0})
  load_by_selector q gvr wm none = ask E (λ _. ok tt)
  load_by_selector q gvr wm (some selector) = load_selected q gvr wm selector

  -- `WorkloadResourceTemplate` of the context
  unfoldable pub template : GroupVersionResource → (container_path : String) → Run E WorkloadMapping
  unfolding workload_resource_template user_of ask
  template gvr path = ask E (λ i.
      workload_resource_template client E.parse E.unmarshal_mapping E.mapping_of_object
        (user_of E i) i.binding.meta i.resource_mapping gvr path i.world)

  unfoldable pub load_applications : WorkloadRequest → Run E (Unit {0})
  unfolding resource_for_referable template load_named load_selected ask
  load_applications q = ◌>>=◌ E (ask E (λ _. resource_for_referable mapper q.ref)) λ gvr.
      ◌>>=◌ E (template gvr (containers_path q.binding_path)) λ wm.
        ◌>>=◌ E (if q.name == "" then ask E (λ _. ok tt) else load_named q gvr wm)
          λ _. load_by_selector q gvr wm q.selector

  -- `Applications`
  unfoldable pub applications : Run E (List ℕ)
  unfolding load_applications ask
  applications i =
      ◌>>=◌ E
        (if is_empty i.applications
          then load_applications (workload_request i.binding.spec)
          else ask E (λ _. ok tt))
        (λ _. ask E (λ j. ok (numbers 0 j.applications))) i
