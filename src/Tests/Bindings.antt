-- ===== src/Tests/Bindings.antt =====
-- A binding of a service and a workload on a cluster that has both, and what its context takes from
-- the other packages.
use service_binding_operator.Base.{
  String, Bool, true, false, Option, none, some, List, [], ◌∷◌, ◌++◌, error, Result, ok, err, ◌==◌,
  if◌then◌else◌,
}
use service_binding_operator.Base.Dict.{Dict}
use service_binding_operator.Value.{text, Object, object_of}
use service_binding_operator.Apis.Conditions.{Condition}
use service_binding_operator.Mapping.{Parser, parsed, field_node, list_node, node, no_nodes}
use service_binding_operator.Mapping.Validation.{Mapping}
use service_binding_operator.Context.{Meta, Ref, OperatorSpec, operator_spec}
use service_binding_operator.Context.Client.{Fetched, fetched, absent, Client}
use service_binding_operator.Context.Lookup.{RestMapper}
use service_binding_operator.Context.Service.{Accessors}
use service_binding_operator.Context.State.{ServiceBinding, Environment}
use service_binding_operator.Context.Contexts.{ContextState, new_context}
use service_binding_operator.Tests.Cluster.{machinery}
use service_binding_operator.Tests.BindingTests.{jsonpath}

abbrev pub web : Object
web = ("kind", text "Deployment") ∷ ("metadata", object_of (("name", text "web") ∷ [])) ∷ []

abbrev pub db : Object
db = ("kind", text "Database") ∷ ("metadata", object_of (("name", text "db") ∷ [])) ∷ []

abbrev found : String → Fetched Object
found name =
    if name == "web"
    then fetched web
    else if name == "db"
    then fetched db
    else absent (error "not found")

-- The state of the cluster is what was written to it. Only a user of that name may do things.
abbrev pub client : Client
client = record {
  World = List String;
  get = λ gvr namespace name w. found name;
  list = λ gvr namespace selector w. fetched (web ∷ []);
  create = λ gvr namespace o w. (none, w ++ ("create" ∷ []));
  update = λ gvr namespace o w. (none, w ++ ("update" ∷ []));
  update_status = λ gvr namespace o w. (none, w ++ ("status" ∷ []));
  review = λ user a w. ok (user.username == "alice");
}

abbrev pub mapper : RestMapper
mapper = record {
  rest_mapping = λ k. ok (record { group = k.group; version = k.version; resource = k.kind });
  from_api_version_and_kind = λ v k. record { group = ""; version = v; kind = k };
}

abbrev accessors : Accessors
accessors = record {
  group_version_kind = λ o. record { group = "example.com"; version = "v1"; kind = "Database" };
  get_uid = λ o. "1";
  owner_uids = λ o. [];
}

abbrev pub parse : Parser
parse path = parsed (list_node (node (field_node path) no_nodes))

abbrev pub no_mapping : {A : Type 0} → A → Result Mapping
no_mapping a = err (error "no mapping")

abbrev keep_one : Condition → List Condition → List Condition
keep_one c cs = c ∷ []

unfoldable pub environment : Environment
unfolding machinery jsonpath
environment = record {
  client = client;
  mapper = mapper;
  machinery = machinery;
  accessors = accessors;
  jsonpath = jsonpath;
  parse = parse;
  find_results = λ n o. ok [];
  registry = [];
  unmarshal_mapping = no_mapping;
  mapping_of_object = no_mapping;
  marshal_user = λ u. u.username;
  unmarshal_user = λ t. some (record { username = t; groups = [] });
  set_annotations = λ d o. o;
  digest = λ t. "0";
  deep_equal = λ a b. true;
  write_binding = λ b. ok (("name", text b.meta.name) ∷ []);
  write_secret = λ s. ok (("name", text s.name) ∷ []);
  to_unstructured = λ o. ok o;
  set_status_condition = keep_one;
  rate_limit = λ m. 5;
}

abbrev ref : String → String → Ref
ref resource name = record {
  group = "apps";
  version = "v1";
  kind = "";
  resource = resource;
  name = name;
}

abbrev spec : Option (Dict String) → OperatorSpec
spec selector = record {
  name = "";
  naming_strategy = "";
  mappings = [];
  services = record { ref = ref "databases" "db"; namespace = none; id = none } ∷ [];
  application = record {
    ref = ref "deployments" "web";
    label_selector = selector;
    binding_path = none;
  };
  detect_binding_resources = false;
  bind_as_files = true;
}

abbrev meta : Bool → Meta
meta deleted = record {
  name = "b";
  namespace = "default";
  uid = "7";
  annotations = ("servicebinding.io/requester", "alice") ∷ [];
  has_deletion_timestamp = deleted;
}

-- The binding, being deleted or not.
abbrev pub binding : Bool → ServiceBinding
binding deleted = record {
  meta = meta deleted;
  spec = operator_spec (spec none);
  status_secret = "b-secret";
  status_conditions = [];
}

unfoldable pub start : Bool → ContextState environment
unfolding new_context environment
start deleted = new_context environment (binding deleted) []

-- The context of a binding that selects its workloads by a label.
unfoldable pub selecting : ContextState environment
unfolding new_context environment
selecting =
    new_context environment
      (record (binding false) { spec = operator_spec (spec (some (("app", "web") ∷ []))) }) []
