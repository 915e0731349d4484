-- ===== src/Workload/Slices/Readable.antt =====
-- The elements of a slice that `NestedResources` returns read as resources of the type.
use mathlib.Core.Path.{subst}
use service_binding_operator.Base.{
  String, ◌≡◌, refl, some, List, [], ◌∷◌, ◌++◌, Result, ok, ◌>>=◌, >>=-eq-ok, ok-injective,
  ok-some-injective, err-ne-ok,
}
use service_binding_operator.Value.{Value, object, array, rows, Object, elements, objects, entries}
use service_binding_operator.Machinery.{Machinery, Codec, Nested, found, missing, invalid}
use service_binding_operator.Workload.Slices.{
  nested_resources, check_slice, check_objects, check_values,
}

abbrev pub Reads : {A : Type 0} → Codec A → Object → Type 0
Reads {A} c m = (a : A) × (c.read m ≡ ok a)

abbrev pub AllRead : {A : Type 0} → Codec A → List Object → Type 0
AllRead c [] = Unit
AllRead c (m ∷ ms) = Reads c m × AllRead c ms

module _ {A : Type 0} (c : Codec A) where
  pub check_objects-AllRead : (ms : List Object) → AllRead c ms → check_objects c ms ≡ ok ms
  unfolding check_objects
  check_objects-AllRead [] h = refl
  check_objects-AllRead (m ∷ ms) ((a, e), h) = rw (e, check_objects-AllRead ms h)

  -- One round of either loop.
  sound_step :
      (m : Object) (rest : Result (List Object)) {rs : List Object}
      → ((r : List Object) → rest ≡ ok r → AllRead c r)
      → (c.read m >>= λ _. rest >>= λ r. ok (m ∷ r)) ≡ ok rs
      → AllRead c rs
  sound_step m rest below h =
      let (a, read_m, h') = >>=-eq-ok (c.read m) (λ _. rest >>= λ r. ok (m ∷ r)) h in
      let (r, read_rest, last) = >>=-eq-ok rest (λ r. ok (m ∷ r)) h' in
      rw (← ok-injective last) ((a, read_m), below r read_rest)

  check_objects_sound :
      (ms : List Object) {rs : List Object} → check_objects c ms ≡ ok rs → AllRead c rs
  unfolding check_objects
  check_objects_sound [] h = rw (← ok-injective h) tt
  check_objects_sound (m ∷ ms) h = sound_step m (check_objects c ms) (λ r. check_objects_sound ms) h

  check_values_sound :
      (vs : List Value) {rs : List Object} → check_values c vs ≡ ok rs → AllRead c rs
  unfolding check_values
  check_values_sound [] h = rw (← ok-injective h) tt
  check_values_sound (object f ∷ vs) h =
      sound_step (entries f) (check_values c vs) (λ r. check_values_sound vs) h
  check_values_sound (_ ∷ vs) h = absurd (err-ne-ok h)

  pub AllRead-append : (ms ns : List Object) → AllRead c ms → AllRead c ns → AllRead c (ms ++ ns)
  AllRead-append [] ns h k = k
  AllRead-append (m ∷ ms) ns (r, h) k = (r, AllRead-append ms ns h k)

  check_slice_sound : (v : Value) {rs : List Object} → check_slice c v ≡ ok rs → AllRead c rs
  unfolding check_slice
  check_slice_sound (rows rs) h = check_objects_sound (objects rs) h
  check_slice_sound (array vs) h = check_values_sound (elements vs) h
  check_slice_sound _ h = absurd (err-ne-ok h)

  pub nested_resources_sound :
      (M : Machinery) (o : Object) (path : List String) {ms : List Object}
      → nested_resources M c o path ≡ ok (some ms)
      → AllRead c ms
  unfolding nested_resources
  nested_resources_sound M o path {ms} h = by_found (M.nested_field o path) refl
    where
      by_found : (r : Nested Value) → M.nested_field o path ≡ r → AllRead c ms
      by_found (found v) e =
          let (rs, read_all, last) =
            >>=-eq-ok (check_slice c v) (λ rs. ok (some rs)) (rw (e, nested_resources) at h) in
          subst (AllRead c) (ok-some-injective last) (check_slice_sound v read_all)
      by_found missing e = cc (rw (e, nested_resources) at h)
      by_found (invalid m) e = cc (rw (e, nested_resources) at h)
