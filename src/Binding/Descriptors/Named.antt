-- ===== src/Binding/Descriptors/Named.antt =====
-- The keys of the annotations that the descriptors stand for.
use text.Mathlib.TextLemmas.{append_assoc}
use service_binding_operator.Base.{
  String, ◌≡◌, sym, ◌∙◌, subst, Bool, true, false, Bool-cases, inl, inr, some, List, [], ◌∷◌, ◌++◌,
  ok, ◌==◌, eq_iff, if◌then◌else◌, if-false,
}
use service_binding_operator.Base.Dict.{Dict, lookup, insert, lookup-insert}
use service_binding_operator.Base.Text.{has_prefix, split, join}
use service_binding_operator.Binding.Annotation.{annotation_prefix, is_service_binding_annotation}
use service_binding_operator.Binding.Names.{IsBindingName, is_service_binding_annotation_lem}
use service_binding_operator.Binding.Descriptors.{
  Descriptor, CrdDescription, get_object_type, annotation_key, behind_name, path_part, type_part,
  load_descriptor, load_each, load_descriptors, binding_annotations,
}

-- Every key is the name of an annotation of binding.
AllNamed : Dict String → Type 0
AllNamed anns = (k v : String) → lookup k anns ≡ some v → is_service_binding_annotation k ≡ ok true

annotation_key-IsBindingName :
    (path : String) (keys : List String) → IsBindingName (annotation_key path keys)
unfolding annotation_key
annotation_key-IsBindingName path [] = inr (path, sym (append_assoc annotation_prefix "/" path))
annotation_key-IsBindingName path (k ∷ []) =
    inr (path, sym (append_assoc annotation_prefix "/" path))
annotation_key-IsBindingName path (k ∷ (name ∷ rest)) =
    inr (name, sym (append_assoc annotation_prefix "/" name))

AllNamed-insert :
    (key v : String) (anns : Dict String)
    → is_service_binding_annotation key ≡ ok true
    → AllNamed anns
    → AllNamed (insert key v anns)
unfolding AllNamed
AllNamed-insert key v anns named all k w h = elim (Bool-cases (key == k)) [
  | inl e ↦ subst (λ k. is_service_binding_annotation k ≡ ok true) ((eq_iff key k).0 e) named
  | inr e ↦ all k w (sym (if-false _ e) ∙ (sym (lookup-insert key k v anns) ∙ h))
]

load_descriptor-AllNamed :
    (anns : Dict String) (path descriptor root object_type : String)
    → AllNamed anns
    → AllNamed (load_descriptor anns path descriptor root object_type)
unfolding load_descriptor
load_descriptor-AllNamed anns path descriptor root object_type all =
    by_prefix (has_prefix descriptor annotation_prefix)
  where
    keys : List String
    keys = split ":" descriptor

    loaded : Dict String
    loaded =
        insert (annotation_key path keys)
          (join "," (path_part root path ∷ (behind_name keys ++ type_part object_type))) anns

    by_prefix : (b : Bool) → AllNamed (if b then loaded else anns)
    by_prefix true =
        AllNamed-insert (annotation_key path keys) _ anns
          ((is_service_binding_annotation_lem (annotation_key path keys)).1
            (annotation_key-IsBindingName path keys))
          all
    by_prefix false = all

load_each-AllNamed :
    (anns : Dict String) (path : String) (xds : List String) (root object_type : String)
    → AllNamed anns
    → AllNamed (load_each anns path xds root object_type)
load_each-AllNamed anns path [] root object_type all = all
load_each-AllNamed anns path (xd ∷ xds) root object_type all =
    load_each-AllNamed (load_descriptor anns path xd root object_type) path xds root object_type
      (load_descriptor-AllNamed anns path xd root object_type all)

load_descriptors-AllNamed :
    (anns : Dict String) (ds : List Descriptor) (root : String)
    → AllNamed anns
    → AllNamed (load_descriptors anns ds root)
unfolding load_descriptors
load_descriptors-AllNamed anns [] root all = all
load_descriptors-AllNamed anns (d ∷ ds) root all =
    load_descriptors-AllNamed
      (load_each anns d.path d.x_descriptors root (get_object_type d.x_descriptors)) ds root
      (load_each-AllNamed anns d.path d.x_descriptors root (get_object_type d.x_descriptors) all)

-- Every annotation that `BindingAnnotations` makes of the descriptors is one that
-- `IsServiceBindingAnnotation` accepts.
pub binding_annotations-accepted :
    (d : CrdDescription) (k v : String)
    → lookup k (binding_annotations d) ≡ some v
    → is_service_binding_annotation k ≡ ok true
unfolding binding_annotations AllNamed lookup
binding_annotations-accepted d =
    load_descriptors-AllNamed _ d.spec_descriptors "spec"
      (load_descriptors-AllNamed [] d.status_descriptors "status" (λ k v h. cc))
