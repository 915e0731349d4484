-- ===== src/Mapping/Validation.antt =====
-- The webhook of workload resource mappings
-- (apis/spec/v1beta1/clusterworkloadresourcemapping_webhook.go).
use Prim.Native.Char.{code}
use service_binding_operator.Base.{
  String, ◌<>◌, ℕ, suc, Bool, true, false, ◌||◌, ◌&&◌, List, [], ◌∷◌, ◌++◌, ◌==◌, is_empty,
  if◌then◌else◌, nat_eq, any,
}
use service_binding_operator.Base.Dict.{Dict, insert, contains}
use service_binding_operator.Mapping.{
  Node, field_node, list_node, other_node, Nodes, no_nodes, node, Parser, parsed, unparsable,
  ContainerTemplate, Template, in_braces,
}

-- A step of a `field.Path`: `name`, or `name[i]`.
pub data Segment : Type 0 where
  child : String → Segment
  indexed : String → ℕ → Segment

-- `field.Error`, with the path of the field.
pub data FieldError : Type 0 where
  required : List Segment → FieldError
  invalid_value : List Segment → (value detail : String) → FieldError
  duplicate : List Segment → (value : String) → FieldError

-- `ClusterWorkloadResourceMapping`
pub record Mapping : Type 0 where
  pub name : String
  pub versions : List Template

-- `schema.GroupVersionResource`
pub record GroupVersionResource : Type 0 where
  pub group : String
  pub version : String
  pub resource : String

-- `verifyJsonPath` of package `v1beta1`.
unfoldable mutual
  pub verify_errors : Node → List Segment → List FieldError
  verify_errors (field_node value) path = []
  verify_errors (list_node nodes) path = verify_all nodes path
  verify_errors (other_node type) path = invalid_value path type "Invalid node type" ∷ []

  pub verify_all : Nodes → List Segment → List FieldError
  verify_all no_nodes path = []
  verify_all (node n nodes) path = verify_errors n path ++ verify_all nodes path

-- The characters for which `unicode.IsSpace` holds.
abbrev spaces : List ℕ
spaces =
    9 ∷ 10 ∷ 11 ∷ 12 ∷ 13 ∷ 32 ∷ 133 ∷ 160 ∷ 5760 ∷ 8192 ∷ 8193 ∷ 8194 ∷ 8195 ∷ 8196 ∷ 8197 ∷ 8198
    ∷ 8199 ∷ 8200 ∷ 8201 ∷ 8202 ∷ 8232 ∷ 8233 ∷ 8239 ∷ 8287 ∷ 12288 ∷ []

-- `strings.TrimSpace(s) == ""`
is_blank : String → Bool
unfolding any
is_blank String.[] = true
is_blank (String.◌∷◌ c s) = any (nat_eq (code c)) spaces && is_blank s

module _ (parse : Parser) where
  unfoldable pub restricted_errors : List Segment → (path : String) → List FieldError
  restricted_errors field path = elim (parse (in_braces path)) [
    | parsed root ↦
        if is_empty (verify_errors root field)
        then []
        else invalid_value field path "Invalid fixed JSONPath" ∷ []
    | unparsable _ ↦ invalid_value field path "Unable to parse fixed JSONPath" ∷ []
  ]

  unfoldable pub validate_restricted_path : List Segment → (value : String) → List FieldError
  validate_restricted_path field value = if value == "" then [] else restricted_errors field value

  unfoldable pub path_errors : List Segment → (path : String) → List FieldError
  path_errors field path =
      if path == "" then required field ∷ [] else elim (parse (in_braces path)) [
        | parsed root ↦ []
        | unparsable _ ↦ invalid_value field path "Invalid JSONPath" ∷ []
      ]

  unfoldable pub validate_container : List Segment → ContainerTemplate → List FieldError
  validate_container path c =
      validate_restricted_path (path ++ (child "name" ∷ [])) c.name
      ++ (validate_restricted_path (path ++ (child "env" ∷ [])) c.env
          ++ (validate_restricted_path (path ++ (child "volumeMounts" ∷ [])) c.volume_mounts
              ++ path_errors (path ++ (child "path" ∷ [])) c.path))

  unfoldable pub validate_containers : List Segment → ℕ → List ContainerTemplate → List FieldError
  validate_containers path i [] = []
  validate_containers path i (c ∷ cs) =
      validate_container (path ++ (indexed "containers" i ∷ [])) c
      ++ validate_containers path (suc i) cs

  unfoldable pub validate_template : List Segment → Template → List FieldError
  validate_template path t =
      validate_containers path 0 t.containers
      ++ (validate_restricted_path (path ++ (child "volumes" ∷ [])) t.volumes
          ++ validate_restricted_path (path ++ (child "annotations" ∷ [])) t.annotations)

  unfoldable pub version_errors : List Segment → (version : String) → Dict ℕ → List FieldError
  unfolding is_blank
  version_errors path version seen =
      if version == ""
      then required (path ++ (child "version" ∷ [])) ∷ []
      else if is_blank version
      then invalid_value (path ++ (child "version" ∷ [])) version
          "Whitespace-only version field forbidden"
        ∷ []
      else if contains version seen
      then duplicate path version ∷ []
      else []

  -- The loop of `validate`, from an index and the versions seen so far.
  unfoldable pub validate_versions : ℕ → Dict ℕ → List Template → List FieldError
  validate_versions i seen [] = []
  validate_versions i seen (t ∷ ts) =
      let path = child "spec" ∷ indexed "versions" i ∷ [] in
      version_errors path t.version seen
      ++ (validate_template path t ++ validate_versions (suc i) (insert t.version i seen) ts)

  -- `validate`: the list whose aggregate is the error, which is nil for the empty list.
  unfoldable pub validate : Mapping → List FieldError
  validate m = validate_versions 0 [] m.versions

-- The loop of `AcceptsGVR` over the versions.
abbrev has_version : String → List Template → Bool
has_version version [] = false
has_version version (t ∷ ts) = t.version == version || t.version == "*" || has_version version ts

unfoldable pub accepts_gvr : Mapping → GroupVersionResource → Bool
accepts_gvr m gvr =
    if m.name == (gvr.resource <> ("." <> gvr.group))
    then has_version gvr.version m.versions
    else false
