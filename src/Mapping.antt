-- ===== src/Mapping.antt =====
-- Workload resource mappings: from a template to the paths that the edits of a workload use (the
-- first part of pkg/reconcile/pipeline/mapping.go). The parser of package `jsonpath` is a
-- parameter.
pub mod Validation
pub mod Accepted
use service_binding_operator.Base.{
  String, ◌<>◌, Bool, List, [], ◌∷◌, ◌++◌, Result, ok, err, panic, errorf, Error, ◌>>=◌, ◌==◌,
  if◌then◌else◌,
}

-- `jsonpath.Node`: a field with its name, a list, or a node of another type.
mutual
  pub data Node : Type 0 where
    field_node : (value : String) → Node
    list_node : Nodes → Node
    other_node : (type : String) → Node

  pub data Nodes : Type 0 where
    no_nodes : Nodes
    node : Node → Nodes → Nodes

-- `jsonpath.Parse`: the root of what it parsed, or an error.
pub data Parsed : Type 0 where
  parsed : Node → Parsed
  unparsable : Error → Parsed

abbrev pub Parser : Type 0
Parser = String → Parsed

abbrev pub root_of : Parsed → Result Node
root_of (parsed root) = ok root
root_of (unparsable e) = err e

-- `ClusterWorkloadResourceMappingContainer` and `ClusterWorkloadResourceMappingTemplate`
pub record ContainerTemplate : Type 0 where
  pub path : String
  pub name : String
  pub env : String
  pub volume_mounts : String

pub record Template : Type 0 where
  pub version : String
  pub annotations : String
  pub containers : List ContainerTemplate
  pub volumes : String

pub record WorkloadContainer : Type 0 where
  pub path : Node
  pub name : List String
  pub env : List String
  pub env_from : List String
  pub volume_mounts : List String

pub record WorkloadMapping : Type 0 where
  pub containers : List WorkloadContainer
  pub volume : List String

-- `verifyJsonPath` of package `pipeline`.
unfoldable mutual
  pub verify_json_path : Node → Result (List String)
  verify_json_path (field_node value) = ok (value ∷ [])
  verify_json_path (list_node nodes) = verify_nodes nodes
  verify_json_path (other_node type) =
      err (errorf "Node type %q not allowed in restricted JSONPath contexts" (type ∷ []))

  pub verify_nodes : Nodes → Result (List String)
  verify_nodes no_nodes = ok []
  verify_nodes (node n nodes) = do
    nested ← verify_json_path n
    paths ← verify_nodes nodes
    ok (nested ++ paths)

-- `fmt.Sprintf("{%s}", path)`
abbrev pub in_braces : String → String
in_braces path = "{" <> (path <> "}")

module _ (parse : Parser) where
  unfoldable pub is_valid_restricted_json_path : String → Result (List String)
  is_valid_restricted_json_path path = do
    root ← root_of (parse (in_braces path))
    verify_json_path root

  unfoldable pub construct_restricted_path :
      (value : String) → (default : List String) → Result (List String)
  construct_restricted_path value default =
      if value == "" then ok default else is_valid_restricted_json_path value

  -- The body of the loop over the containers.
  unfoldable pub workload_container : ContainerTemplate → Result WorkloadContainer
  workload_container c = do
    name ← construct_restricted_path c.name ("name" ∷ [])
    env ← construct_restricted_path c.env ("env" ∷ [])
    volume_mounts ← construct_restricted_path c.volume_mounts ("volumeMounts" ∷ [])
    path ← root_of (parse (in_braces c.path))
    ok (record {
      path = path;
      name = name;
      env = env;
      env_from = "envFrom" ∷ [];
      volume_mounts = volume_mounts;
    })

  unfoldable pub workload_containers : List ContainerTemplate → Result (List WorkloadContainer)
  workload_containers [] = ok []
  workload_containers (c ∷ cs) = do
    wc ← workload_container c
    rest ← workload_containers cs
    ok (wc ∷ rest)

  -- `FromWorkloadResourceMappingTemplate`
  unfoldable pub from_template : Template → Result WorkloadMapping
  from_template t = do
    containers ← workload_containers t.containers
    volume ← construct_restricted_path t.volumes ("spec" ∷ "template" ∷ "spec" ∷ "volumes" ∷ [])
    ok (record { containers = containers; volume = volume })
