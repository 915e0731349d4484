-- ===== src/Tests/ContextTests.antt =====
-- The context of a binding on a cluster.
use service_binding_operator.Base.{
  String, ℕ, ◌==◌, ◌⊎◌, true, is_empty, ◌≡◌, ◌≤◌, refl, false, Option, none, some, [], ◌∷◌, Error,
  Result, ok, length,
}
use service_binding_operator.Mapping.{
  Template, WorkloadMapping, workload_containers, workload_container, construct_restricted_path,
  is_valid_restricted_json_path, verify_json_path,
}
use service_binding_operator.Mapping.Validation.{GroupVersionResource}
use service_binding_operator.Base.Dict.{lookup}
use service_binding_operator.Apis.Conditions.{Condition, binding_ready_type}
use service_binding_operator.Context.Templates.{choose, workload_resource_template}
use service_binding_operator.Context.Templates.Chosen.{
  choose_lem, workload_resource_template-containers, find_first, find_last,
}
use service_binding_operator.Context.State
use service_binding_operator.Context.State.{Impl, set_condition}
use service_binding_operator.Context.Reading.{applications, workload_request}
use service_binding_operator.Context.Reading.Permitted.{HasPermitted, applications-HasPermitted}
use service_binding_operator.Context.Reading.Again.{applications_again}
use service_binding_operator.Context.Persisting.{
  close, ready, persist_binding, persist_secret, secret_name,
}
use service_binding_operator.Context.Persisting.Naming.{secret_name-persist_secret}
use service_binding_operator.Base.Base64.{decode_string}
use service_binding_operator.Base.Dict.{merge, insert}
use service_binding_operator.Base.Sort.{sort_by_key}
use service_binding_operator.Value.{text, Object, object_of}
use service_binding_operator.Value.Print.{sprint}
use service_binding_operator.Pipeline.Items.{BindingItem}
use service_binding_operator.Pipeline.SecretBacked.{secret_backed, items_of_secret}
use service_binding_operator.Pipeline.Gathered.{binding_item_map}
use service_binding_operator.Tests.Cluster.{machinery}
use service_binding_operator.Context.Persisting.Taken.{AllTaken}
use service_binding_operator.Context.Persisting.Ready.{close-IsReady}
use service_binding_operator.Tests.Bindings.{environment, start, client, parse, no_mapping, binding}

abbrev template : String → String → Template
template version volumes = record {
  version = version;
  annotations = "";
  containers = [];
  volumes = volumes;
}

-- The last template for any version is chosen where none has the version.
choose_lem_example :
    choose "v1"
      (template "" ".given")
      (template "*" ".first" ∷ template "v2" ".other" ∷ template "*" ".last" ∷ [])
    ≡ template "*" ".last"
unfolding find_first find_last
choose_lem_example =
    choose_lem "v1" (template "" ".given")
      (template "*" ".first" ∷ template "v2" ".other" ∷ template "*" ".last" ∷ [])

abbrev deployments : GroupVersionResource
deployments = record { group = "apps"; version = "v1"; resource = "deployments" }

-- The mapping that is made where the cluster has none for the resource.
abbrev made : Result WorkloadMapping
made =
    workload_resource_template client parse no_mapping no_mapping none (binding false).meta none
      deployments "" []

abbrev mapping_of : Result WorkloadMapping → WorkloadMapping
mapping_of (ok m) = m
mapping_of _ = record { containers = []; volume = [] }

workload_resource_template-containers_example : 1 ≤ length (mapping_of made).containers
unfolding workload_resource_template workload_containers workload_container
    construct_restricted_path is_valid_restricted_json_path verify_json_path
workload_resource_template-containers_example =
    workload_resource_template-containers client parse no_mapping no_mapping none
      (binding false).meta deployments "" [] refl

-- The context after its applications were read.
abbrev loaded : Impl environment
loaded = (applications environment (start false).impl).1

applications-HasPermitted_example : HasPermitted environment loaded
unfolding start
applications-HasPermitted_example = applications-HasPermitted environment (start false).impl tt

never_some-test : (o : Option Condition) (c : Condition) → o ≡ none → o ≡ some c → ⊥
never_some-test none c e h = cc
never_some-test (some d) c e h = cc

abbrev no_error : Option Error
no_error = none

close-IsReady_example :
    (no_error ≡ none)
    × (w : environment.client.World) × AllTaken environment loaded.binding.meta.namespace
        loaded.applications loaded.world w
    × (close environment no_error loaded
        ≡ persist_binding environment
            (set_condition environment ready (record loaded { world = w })))
unfolding close applications lookup environment start State.◌>>=◌ workload_request
    workload_containers workload_container construct_restricted_path is_valid_restricted_json_path
    verify_json_path
close-IsReady_example =
    close-IsReady environment no_error loaded
      (λ h. never_some-test (lookup binding_ready_type loaded.conditions) ready refl h) refl

applications_again_example : applications environment loaded ≡ (ok (0 ∷ []), loaded)
unfolding applications start environment State.◌>>=◌ workload_request workload_containers
    workload_container construct_restricted_path is_valid_restricted_json_path verify_json_path
applications_again_example = applications_again environment (start false).impl loaded (0 ∷ []) refl

-- A secret of another namespace is bound, so that its datum is copied to a new secret.
abbrev credentials : Object
credentials = ("data", object_of (("password", text "cGFzcw==") ∷ [])) ∷ []

abbrev password : BindingItem (Option ℕ)
password = record { name = "password"; value = text "pass"; source = some 0 }

abbrev gathering : Impl environment
gathering = record (start false).impl {
  gathered = record { binding_items = []; bindings = secret_backed (some 0) credentials ∷ [] };
}

abbrev persisted : Impl environment
persisted = (persist_secret environment gathering).1

secret_name-persist_secret_example :
    ((secret_name environment persisted).0 ≡ (secret_name environment gathering).0)
    × ((persisted.binding.status_secret ≡ (secret_name environment gathering).0.0)
        ⊎ ((((secret_name environment gathering).0.0 == "") ≡ true)
            ⊎ (is_empty (binding_item_map environment.machinery persisted.gathered).0 ≡ true)))
unfolding persist_secret environment start items_of_secret machinery decode_string merge insert
    sprint sort_by_key secret_name State.◌>>=◌ binding_item_map
secret_name-persist_secret_example =
    secret_name-persist_secret environment gathering persisted ((password ∷ [], refl), tt) refl
