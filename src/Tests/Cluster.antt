-- ===== src/Tests/Cluster.antt =====
-- Functions for what the program takes from the Kubernetes libraries: accessors that walk, and a
-- plain layout of the typed resources.
use service_binding_operator.Base.{
  String, ◌≡◌, refl, ap, sym, ◌∙◌, subst, ok-injective, Option, none, some, List, [], ◌∷◌, error,
  ok,
}
use service_binding_operator.Base.Dict.{Dict, lookup}
use service_binding_operator.Value.{Value, text, object, Object, object_of, entries, fields}
use service_binding_operator.Machinery.{
  Nested, found, missing, invalid, Codec, SecretKeySelector, EnvVar, EnvFromSource, Volume,
  VolumeMount, Machinery, Walk, walk, arrives, nowhere, stuck, Reports, ReportsText, IsLawful,
}

abbrev report : Walk → Nested Value
report (arrives v) = found v
report nowhere = missing
report stuck = invalid (error "not a map")

abbrev report_text : Walk → Nested String
report_text (arrives (text s)) = found s
report_text (arrives _) = invalid (error "not a string")
report_text nowhere = missing
report_text stuck = invalid (error "not a map")

abbrev texts_of : Object → Option (Dict String)
texts_of [] = some []
texts_of ((k, text s) ∷ o) = elim (texts_of o) [ none ↦ none | some d ↦ some ((k, s) ∷ d) ]
texts_of ((k, _) ∷ o) = none

abbrev report_map : Walk → Nested (Dict String)
report_map (arrives (object f)) = elim (texts_of (entries f)) [
  | none ↦ invalid (error "not a string")
  | some d ↦ found d
]
report_map (arrives _) = invalid (error "not a map")
report_map nowhere = missing
report_map stuck = invalid (error "not a map")

abbrev text_at : String → List String → Walk → String
text_at d p (arrives (text s)) = s
text_at d p _ = d

abbrev text_or : String → Option Value → String
text_or d (some (text s)) = s
text_or d _ = d

abbrev key_ref : Option Value → Option Value → Option SecretKeySelector
key_ref (some (text s)) (some (text k)) = some (record { secret = s; key = k })
key_ref _ _ = none

abbrev write_key_ref : Option SecretKeySelector → Object
write_key_ref none = []
write_key_ref (some r) = ("secret", text r.secret) ∷ ("key", text r.key) ∷ []

abbrev env_var : Codec EnvVar
env_var = record {
  write =
      λ e. ok (("name", text e.name) ∷ ("value", text e.value) ∷ write_key_ref e.secret_key_ref);
  read = λ u. ok (record {
    name = text_or "" (lookup "name" u);
    value = text_or "" (lookup "value" u);
    secret_key_ref = key_ref (lookup "secret" u) (lookup "key" u);
  });
}

abbrev write_secret_ref : Option String → Object
write_secret_ref none = []
write_secret_ref (some s) = ("secretRef", object_of (("name", text s) ∷ [])) ∷ []

abbrev secret_ref_at : Walk → Option String
secret_ref_at (arrives (text s)) = some s
secret_ref_at _ = none

abbrev env_from : Codec EnvFromSource
env_from = record {
  write = λ e. ok (write_secret_ref e.secret_ref);
  read = λ u.
      ok (record { secret_ref = secret_ref_at (walk (object_of u) ("secretRef" ∷ "name" ∷ [])) });
}

abbrev volume : Codec Volume
volume = record {
  write = λ v. ok (("name", text v.name) ∷ ("secretName", text v.secret_name) ∷ []);
  read = λ u. ok (record {
    name = text_or "" (lookup "name" u);
    secret_name = text_or "" (lookup "secretName" u);
  });
}

abbrev volume_mount : Codec VolumeMount
volume_mount = record {
  write = λ m. ok (("name", text m.name) ∷ ("mountPath", text m.mount_path) ∷ []);
  read = λ u. ok (record {
    name = text_or "" (lookup "name" u);
    mount_path = text_or "" (lookup "mountPath" u);
  });
}

abbrev text_of : Object → List String → String
text_of o p = text_at "" p (walk (object_of o) p)

unfoldable pub machinery : Machinery
unfolding walk lookup fields entries
machinery = record {
  nested_field = λ o p. report (walk (object_of o) p);
  nested_string = λ o p. report_text (walk (object_of o) p);
  nested_string_map = λ o p. report_map (walk (object_of o) p);
  get_namespace = λ o. text_of o ("metadata" ∷ "namespace" ∷ []);
  get_name = λ o. text_of o ("metadata" ∷ "name" ∷ []);
  get_kind = λ o. text_of o ("kind" ∷ []);
  get_api_version = λ o. text_of o ("apiVersion" ∷ []);
  get_annotations = λ o. [];
  env_var = env_var;
  env_from = env_from;
  volume = volume;
  volume_mount = volume_mount;
}

Reports-report : (w : Walk) → Reports w (report w)
Reports-report (arrives v) = refl
Reports-report nowhere = refl
Reports-report stuck = (_, refl)

ReportsText-report_text : (w : Walk) → ReportsText w (report_text w)
ReportsText-report_text (arrives (text s)) = refl
ReportsText-report_text (arrives _) = (_, refl)
ReportsText-report_text nowhere = refl
ReportsText-report_text stuck = (_, refl)

written : (P : Object → Type 0) {w u : Object} → ok w ≡ ok u → P w → P u
written P h p = subst P (ok-injective h) p

env_var-written :
    (n v : String) (r : Option SecretKeySelector)
    → let u = ("name", text n) ∷ ("value", text v) ∷ write_key_ref r in
      (machinery.env_var.read u ≡ ok (record { name = n; value = v; secret_key_ref = r }))
      × (lookup "name" u ≡ some (text n))
unfolding machinery lookup
env_var-written n v none = (refl, refl)
env_var-written n v (some r) = (refl, refl)

env_from-write_lem :
    (e : EnvFromSource) {u : Object} {s : String}
    → e.secret_ref ≡ some s
    → machinery.env_from.write e ≡ ok u
    → (machinery.env_from.read u ≡ ok e)
      × (walk (object_of u) ("secretRef" ∷ "name" ∷ []) ≡ arrives (text s))
unfolding machinery walk lookup fields entries
env_from-write_lem e {u} {s} p h =
    written
      (λ u.
        (env_from.read u ≡ ok e)
        × (walk (object_of u) ("secretRef" ∷ "name" ∷ []) ≡ arrives (text s)))
      (ap (λ (r : Option String). ok (write_secret_ref r)) (sym p) ∙ h)
      (ap (λ (r : Option String). ok (record { secret_ref = r })) (sym p), refl)

pub machinery-IsLawful : IsLawful machinery
unfolding machinery walk lookup fields entries
machinery-IsLawful = record {
  nested_field-walk = λ o p. Reports-report (walk (object_of o) p);
  nested_string-walk = λ o p. ReportsText-report_text (walk (object_of o) p);
  env_var-write = λ e h.
      written (λ u. (env_var.read u ≡ ok e) × (lookup "name" u ≡ some (text e.name))) h
        (env_var-written e.name e.value e.secret_key_ref);
  env_from-write = λ e p q h. env_from-write_lem e p h;
  volume-write = λ v h.
      written (λ u. (volume.read u ≡ ok v) × (lookup "name" u ≡ some (text v.name))) h (refl, refl);
  volume_mount-write = λ m h. written (λ u. volume_mount.read u ≡ ok m) h refl;
}
