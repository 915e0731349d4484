-- ===== src/Binding/Descriptors.antt =====
-- The annotations that the descriptors of a custom resource stand for
-- (pkg/reconcile/pipeline/crddescription.go).
pub mod Named
use service_binding_operator.Base.{
  String, ◌<>◌, Option, none, some, List, [], ◌∷◌, ◌++◌, ◌==◌, if◌then◌else◌,
}
use service_binding_operator.Base.Dict.{Dict, insert}
use service_binding_operator.Base.Text.{strip_prefix, has_prefix, split, join}
use service_binding_operator.Binding.Annotation.{annotation_prefix}

-- A descriptor of the status or of the specification, as far as it is read.
pub record Descriptor : Type 0 where
  pub path : String
  pub x_descriptors : List String

-- `CRDDescription`
pub record CrdDescription : Type 0 where
  pub status_descriptors : List Descriptor
  pub spec_descriptors : List Descriptor

abbrev pub type_annotation : String
type_annotation = "urn:alm:descriptor:io.kubernetes:"

-- `getObjectType`
unfoldable pub get_object_type : List String → String
unfolding strip_prefix
get_object_type [] = ""
get_object_type (d ∷ ds) = elim (strip_prefix type_annotation d) [
  | some type ↦ type
  | none ↦ get_object_type ds
]

-- The key of the annotation, from the parts of the descriptor.
unfoldable pub annotation_key : (path : String) → (keys : List String) → String
annotation_key path (k ∷ (name ∷ rest)) = annotation_prefix <> ("/" <> name)
annotation_key path _ = annotation_prefix <> ("/" <> path)

abbrev pub behind_name : (keys : List String) → List String
behind_name (k ∷ (name ∷ rest)) = rest
behind_name _ = []

abbrev pub path_part : (root path : String) → String
path_part root path = "path={." <> (root <> ("." <> (path <> "}")))

abbrev pub type_part : (object_type : String) → List String
type_part object_type = if object_type == "" then [] else ("objectType=" <> object_type) ∷ []

-- `loadDescriptor`
unfoldable pub load_descriptor :
    Dict String → (path descriptor root object_type : String) → Dict String
unfolding has_prefix split join insert annotation_key
load_descriptor anns path descriptor root object_type =
    let keys = split ":" descriptor in
    if has_prefix descriptor annotation_prefix
    then insert (annotation_key path keys)
        (join "," (path_part root path ∷ (behind_name keys ++ type_part object_type))) anns
    else anns

abbrev pub load_each :
    Dict String → (path : String) → List String → (root object_type : String) → Dict String
load_each anns path [] root object_type = anns
load_each anns path (xd ∷ xds) root object_type =
    load_each (load_descriptor anns path xd root object_type) path xds root object_type

unfoldable pub load_descriptors : Dict String → List Descriptor → (root : String) → Dict String
unfolding load_descriptor get_object_type
load_descriptors anns [] root = anns
load_descriptors anns (d ∷ ds) root =
    load_descriptors (load_each anns d.path d.x_descriptors root (get_object_type d.x_descriptors))
      ds root

-- `BindingAnnotations`
unfoldable pub binding_annotations : CrdDescription → Dict String
unfolding load_descriptors
binding_annotations d =
    load_descriptors (load_descriptors [] d.status_descriptors "status") d.spec_descriptors "spec"
