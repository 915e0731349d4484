-- ===== src/Machinery.antt =====
-- The k8s.io libraries that the program calls, as parameters: the accessors of package
-- `unstructured` and of its type `Unstructured`, and the converter between objects and the typed
-- resources of package `corev1`.
-- The records hold the fields that the program sets or reads.
use service_binding_operator.Base.{
  String, ◌≡◌, ◌==◌, false, Option, none, some, List, [], ◌∷◌, Error, Result, ok,
}
use service_binding_operator.Base.Dict.{Dict, lookup}
use service_binding_operator.Value.{Value, null, text, object, Object, object_of, entries}

-- The results of `NestedFieldNoCopy` and its kin: `v, true, nil`, `nil, false, nil`, or an error.
pub data Nested {ℓ} (A : Type ℓ) : Type ℓ where
  found : A → Nested A
  missing : Nested A
  invalid : Error → Nested A

-- `ToUnstructured` and `FromUnstructured` at one type of resource.
pub record Codec (A : Type 0) : Type 0 where
  pub write : A → Result Object
  pub read : Object → Result A

pub record SecretKeySelector : Type 0 where
  pub secret : String
  pub key : String

pub record EnvVar : Type 0 where
  pub name : String
  pub value : String
  pub secret_key_ref : Option SecretKeySelector

pub record EnvFromSource : Type 0 where
  pub secret_ref : Option String

pub record Volume : Type 0 where
  pub name : String
  pub secret_name : String

pub record VolumeMount : Type 0 where
  pub name : String
  pub mount_path : String

pub record Machinery : Type 0 where
  pub nested_field : Object → List String → Nested Value
  pub nested_string : Object → List String → Nested String
  pub nested_string_map : Object → List String → Nested (Dict String)
  pub get_namespace : Object → String
  pub get_name : Object → String
  pub get_kind : Object → String
  pub get_api_version : Object → String
  pub get_annotations : Object → Dict String
  pub env_var : Codec EnvVar
  pub env_from : Codec EnvFromSource
  pub volume : Codec Volume
  pub volume_mount : Codec VolumeMount

-- Where a path of keys leads from a value, as the documentation of the accessors says: to a
-- value, to nothing, or into a value that is no map.
pub data Walk : Type 0 where
  arrives : Value → Walk
  nowhere stuck : Walk

unfoldable pub walk : Value → List String → Walk
walk v [] = arrives v
walk null (k ∷ ks) = nowhere
walk (object f) (k ∷ ks) = elim (lookup k (entries f)) [ none ↦ nowhere | some v ↦ walk v ks ]
walk _ (k ∷ ks) = stuck

abbrev pub Reports : Walk → Nested Value → Type 0
Reports (arrives v) r = r ≡ found v
Reports nowhere r = r ≡ missing
Reports stuck r = (e : Error) × (r ≡ invalid e)

abbrev pub ReportsText : Walk → Nested String → Type 0
ReportsText (arrives (text s)) r = r ≡ found s
ReportsText (arrives _) r = (e : Error) × (r ≡ invalid e)
ReportsText nowhere r = r ≡ missing
ReportsText stuck r = (e : Error) × (r ≡ invalid e)

-- What the program relies on: the accessors follow the path, and a resource that was written has
-- its name under the key `name` and is read again as what it was. A reference to a secret without a
-- name is written without that key (`omitempty`).
pub record IsLawful (M : Machinery) : Type 0 where
  pub nested_field-walk :
      (o : Object) (p : List String) → Reports (walk (object_of o) p) (M.nested_field o p)
  pub nested_string-walk :
      (o : Object) (p : List String) → ReportsText (walk (object_of o) p) (M.nested_string o p)
  pub env_var-write :
      (e : EnvVar) {u : Object}
      → M.env_var.write e ≡ ok u
      → (M.env_var.read u ≡ ok e) × (lookup "name" u ≡ some (text e.name))
  pub env_from-write :
      (e : EnvFromSource) {u : Object} {s : String}
      → e.secret_ref ≡ some s
      → (s == "") ≡ false
      → M.env_from.write e ≡ ok u
      → (M.env_from.read u ≡ ok e)
        × (walk (object_of u) ("secretRef" ∷ "name" ∷ []) ≡ arrives (text s))
  pub volume-write :
      (v : Volume) {u : Object}
      → M.volume.write v ≡ ok u
      → (M.volume.read u ≡ ok v) × (lookup "name" u ≡ some (text v.name))
  pub volume_mount-write :
      (m : VolumeMount) {u : Object} → M.volume_mount.write m ≡ ok u → M.volume_mount.read u ≡ ok m

-- `schema.GroupVersionKind`
pub record GroupVersionKind : Type 0 where
  pub group : String
  pub version : String
  pub kind : String
