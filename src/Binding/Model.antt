-- ===== src/Binding/Model.antt =====
-- The value of an annotation as a model (pkg/binding/model.go). An element type, an object type and
-- a key of the model are texts, as in the source.
pub mod Parsing
use service_binding_operator.Base.{
  String, ◌<>◌, Bool, true, false, ◌&&◌, ◌||◌, not, Option, none, some, List, [], ◌∷◌, Result, ok,
  err, error, errorf, ◌==◌, is_empty, if◌then◌else◌,
}
use service_binding_operator.Base
use service_binding_operator.Base.Dict.{Dict, lookup, insert}
use service_binding_operator.Base.Text.{split, count, strip_prefix}

abbrev pub config_map_object_type : String
config_map_object_type = "ConfigMap"

abbrev pub secret_object_type : String
secret_object_type = "Secret"

abbrev pub string_object_type : String
string_object_type = "string"

abbrev pub empty_object_type : String
empty_object_type = ""

abbrev pub map_element_type : String
map_element_type = "map"

abbrev pub slice_of_maps_element_type : String
slice_of_maps_element_type = "sliceOfMaps"

abbrev pub slice_of_strings_element_type : String
slice_of_strings_element_type = "sliceOfStrings"

abbrev pub string_element_type : String
string_element_type = "string"

pub record Model : Type 0 where
  pub path : String
  pub element_type : String
  pub object_type : String
  pub source_key : String
  pub source_value : String
  pub value : String
  pub optional : Bool

abbrev pub is_string_element_type : Model → Bool
is_string_element_type m = m.element_type == string_element_type

abbrev pub is_string_object_type : Model → Bool
is_string_object_type m = m.object_type == string_object_type

abbrev pub is_map_element_type : Model → Bool
is_map_element_type m = m.element_type == map_element_type

abbrev pub is_slice_of_maps_element_type : Model → Bool
is_slice_of_maps_element_type m = m.element_type == slice_of_maps_element_type

abbrev pub is_slice_of_strings_element_type : Model → Bool
is_slice_of_strings_element_type m = m.element_type == slice_of_strings_element_type

abbrev pub has_data_field : Model → Bool
has_data_field m = m.object_type == secret_object_type || m.object_type == config_map_object_type

abbrev pub keys : List String
keys = "path" ∷ "optional" ∷ "objectType" ∷ "elementType" ∷ "sourceKey" ∷ "sourceValue" ∷ []

-- The inner loop: what one part of the annotation's value sets.
load_part : String → List String → Dict String → Dict String
load_part kv [] raw = raw
load_part kv (k ∷ ks) raw =
    load_part kv ks (elim (strip_prefix (k <> "=") kv) [ none ↦ raw | some v ↦ insert k v raw ])

-- The outer loop.
load_parts : List String → Dict String → Dict String
load_parts [] raw = raw
load_parts (kv ∷ kvs) raw = load_parts kvs (load_part kv keys raw)

-- The keys that the annotation's value sets.
unfoldable pub raw_keys : String → Dict String
unfolding load_parts load_part split strip_prefix insert
raw_keys annotation = load_parts (split "," annotation) []

abbrev pub or_text : Option String → String → String
or_text none d = d
or_text (some s) d = s

-- The object type, where an empty one stands for the default.
pub object_type_of : Option String → String
object_type_of none = string_object_type
object_type_of (some t) = if t == empty_object_type then string_object_type else t

pub element_type_of : Option String → Bool → String
element_type_of (some t) has_data = t
element_type_of none has_data = if has_data then map_element_type else string_element_type

-- The checks on the braces of the path.
unfoldable pub valid_path : String → Bool
valid_path path = let n = count "{" path in not (Base.nat_eq n 0) && Base.nat_eq n (count "}" path)

-- The check that everything is there for a slice of maps.
abbrev pub complete : Model → Result Model
complete m =
    if is_slice_of_maps_element_type m && (m.source_value == "" || m.source_key == "")
    then err (error "sliceOfMaps elementType requires sourceKey and sourceValue to be present")
    else ok m

-- The model with the path and the other keys.
unfoldable pub model_of : Dict String → String → Model
model_of raw path =
    let obj_type = object_type_of (lookup "objectType" raw) in
    let has_data = obj_type == secret_object_type || obj_type == config_map_object_type in
    let source_key = or_text (lookup "sourceKey" raw) "" in
    record {
      path = path;
      element_type = element_type_of (lookup "elementType" raw) has_data;
      object_type = obj_type;
      source_key = source_key;
      source_value = or_text (lookup "sourceValue" raw) source_key;
      value = "";
      optional = or_text (lookup "optional" raw) "" == "true";
    }

-- The rest of `newModel` behind the checks on the path.
unfoldable pub from_raw : Dict String → String → Result Model
unfolding model_of
from_raw raw path = complete (model_of raw path)

-- An annotation that sets no key is a constant.
pub constant : String → Model
constant annotation = record {
  path = "";
  element_type = "";
  object_type = "";
  source_key = "";
  source_value = "";
  value = annotation;
  optional = false;
}

unfoldable pub new_model : String → Result Model
unfolding raw_keys from_raw constant object_type_of element_type_of valid_path count lookup
new_model annotation =
    let raw = raw_keys annotation in
    elim (lookup "path" raw) [
      | none ↦
          if is_empty raw
          then ok (constant annotation)
          else err (errorf "path not found: %q" (annotation ∷ []))
      | some path ↦
          if valid_path path
          then from_raw raw path
          else err (errorf "path has invalid syntax: %q" (path ∷ []))
    ]
