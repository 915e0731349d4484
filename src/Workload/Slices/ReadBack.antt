-- ===== src/Workload/Slices/ReadBack.antt =====
-- Lemmas on reading what `set_slice` wrote.
use mathlib.Core.Path.{subst}
use service_binding_operator.Workload.Slices.Readable.{AllRead, check_objects-AllRead}
use service_binding_operator.Base.{
  String, ◌≡◌, refl, ◌∙◌, Option, none, some, List, [], ◌∷◌, ◌++◌, Result, ok, ◌>>=◌, >>=-eq-ok,
  ok-injective, err-ne-ok, arith, eq_refl, Option-cases, inl, inr,
}
use service_binding_operator.Base.Dict.{lookup, insert, lookup-insert}
use service_binding_operator.Value.{
  Value, null, object, Fields, Object, object_of, rows_of, entries, entries-fields, fields-entries,
  objects-row_list,
}
use service_binding_operator.Machinery.{
  Machinery, IsLawful, Codec, Nested, found, missing, invalid, Walk, walk, arrives, nowhere, stuck,
  Reports,
}
use service_binding_operator.Workload.Slices.{
  split_last, write_at, create_at, set_in, set_slice, nested_resources, check_slice,
}

pub split_last-eq-some :
    (path : List String) {front : List String} {key : String}
    → split_last path ≡ some (front, key)
    → path ≡ front ++ (key ∷ [])
unfolding split_last
split_last-eq-some [] h = cc
split_last-eq-some (k ∷ ks) {front} {key} h = elim (Option-cases (split_last ks)) [
  | inl e ↦ ground arith
  | inr ((f, l), e) ↦ ground (arith, split_last-eq-some ks e)
]

abbrev pub walk_from : Option Value → List String → Walk
walk_from none ps = nowhere
walk_from (some v) ps = walk v ps

pub walk-nil : (v : Value) → walk v [] ≡ arrives v
unfolding walk
walk-nil v = refl

-- A walk from a map goes on from what stands under the first key.
pub walk-object_of :
    (o : Object) (p : String) (ps : List String)
    → walk (object_of o) (p ∷ ps) ≡ walk_from (lookup p o) ps
unfolding walk
walk-object_of o p ps =
    rw (entries-fields o, walk)
      (elim (Option-cases (lookup p o)) [ inl e ↦ rw e | inr (v, e) ↦ rw e ])

walk-insert :
    (p : String) (v : Value) (ps : List String) (o : Object)
    → walk (object_of (insert p v o)) (p ∷ ps) ≡ walk v ps
walk-insert p v ps o = rw (walk-object_of, lookup-insert, eq_refl)

-- A walk that ends at a map begins with a key that holds one.
walk_from-object :
    (v : Option Value) (ps : List String) {f : Fields}
    → walk_from v ps ≡ arrives (object f)
    → (g : Fields) × (v ≡ some (object g)) × (walk (object g) ps ≡ arrives (object f))
unfolding walk
walk_from-object none ps h = cc
walk_from-object (some (object g)) ps h = (g, refl, h)
walk_from-object (some _) [] h = cc
walk_from-object (some _) (q ∷ qs) h = cc

walk-write_at :
    (o : Object) (ps : List String) (key : String) (v : Value) {f : Fields}
    → walk (object_of o) ps ≡ arrives (object f)
    → walk (object_of (write_at o ps key v)) (ps ++ (key ∷ [])) ≡ arrives v
unfolding write_at
walk-write_at o [] key v h = walk-insert key v [] o ∙ walk-nil v
walk-write_at o (p ∷ ps) key v {f} h =
    let (g, at_p, beyond) = walk_from-object (lookup p o) ps (rw walk-object_of at h) in
    rw (at_p, write_at)
      (rw walk-insert (walk-write_at (entries g) ps key v {f = f} (rw fields-entries beyond)))

-- The last step of the loop: the map made of the rest of the path goes under the key.
walk-create_step :
    (o : Object) (p : String) (ps : List String) (m : Result Object) (v : Value) {o' : Object}
    → ((r : Object) → m ≡ ok r → walk (object_of r) ps ≡ arrives v)
    → (m >>= λ r. ok (insert p (object_of r) o)) ≡ ok o'
    → walk (object_of o') (p ∷ ps) ≡ arrives v
walk-create_step o p ps m v made h =
    let (r, e, last) = >>=-eq-ok m (λ r. ok (insert p (object_of r) o)) h in
    rw (← ok-injective last, walk-insert) (made r e)

walk-create_at :
    (o : Object) (walked ps : List String) (key : String) (v : Value) (o' : Object)
    → create_at o walked ps key v ≡ ok o'
    → walk (object_of o') (ps ++ (key ∷ [])) ≡ arrives v
unfolding create_at
walk-create_at o walked [] key v o' h = rw (← ok-injective h) (walk-insert key v [] o ∙ walk-nil v)
walk-create_at o walked (p ∷ ps) key v o' h =
    by_old (lookup p o) refl (λ b r. walk-create_at b (walked ++ (p ∷ [])) ps key v r)
  where
    by_old :
        (old : Option Value)
        → lookup p o ≡ old
        → ((b r : Object)
            → create_at b (walked ++ (p ∷ [])) ps key v ≡ ok r
            → walk (object_of r) (ps ++ (key ∷ [])) ≡ arrives v)
        → walk (object_of o') (p ∷ (ps ++ (key ∷ []))) ≡ arrives v
    by_old none e below = walk-create_step o p _ _ v (below []) (rw (e, create_at) at h)
    by_old (some (object f)) e below =
        walk-create_step o p _ _ v (below (entries f)) (rw (e, create_at) at h)
    by_old (some null) e below = absurd (err-ne-ok (rw (e, create_at) at h))
    by_old (some _) e below = absurd (err-ne-ok (rw (e, create_at) at h))

pub found-arrives :
    (w : Walk) {r : Nested Value} {v : Value} → Reports w r → r ≡ found v → w ≡ arrives v
found-arrives (arrives u) h e = cc
found-arrives nowhere h e = cc
found-arrives stuck (_, h) e = cc

module _ (M : Machinery) (L : IsLawful M) where
  walk-set_in :
      (o : Object) (front : List String) (key : String) (v : Value) (o' : Object)
      → set_in M o front key v ≡ ok o'
      → walk (object_of o') (front ++ (key ∷ [])) ≡ arrives v
  unfolding set_in
  walk-set_in o [] key v o' h = rw (← ok-injective h) (walk-insert key v [] o ∙ walk-nil v)
  walk-set_in o (p ∷ ps) key v o' h = by_found (M.nested_field o (p ∷ ps)) refl
    where
      by_found :
          (r : Nested Value)
          → M.nested_field o (p ∷ ps) ≡ r
          → walk (object_of o') ((p ∷ ps) ++ (key ∷ [])) ≡ arrives v
      by_found (found (object f)) e = rw (← ok-injective (rw (e, set_in) at h)) (
          walk-write_at o (p ∷ ps) key v {f = f}
            (found-arrives _ (L.nested_field-walk o (p ∷ ps)) e))
      by_found missing e = walk-create_at o [] (p ∷ ps) key v o' (rw (e, set_in) at h)
      by_found (invalid m) e = absurd (err-ne-ok (rw (e, set_in) at h))
      by_found (found _) e = absurd (err-ne-ok (rw (e, set_in) at h))

  -- Where `setSlice` succeeds, the path leads to the slice in the object that it leaves. The
  -- Kubernetes libraries are taken to be lawful (Machinery.IsLawful).
  pub walk-set_slice :
      (o : Object) (ms : List Object) (path : List String) (o' : Object)
      → set_slice M o ms path ≡ ok o'
      → walk (object_of o') path ≡ arrives (rows_of ms)
  unfolding set_slice
  walk-set_slice o ms path o' h = elim (Option-cases (split_last path)) [
    | inl e ↦ cc (rw (e, set_slice) at h)
    | inr ((front, key), e) ↦
        rw (split_last-eq-some path e)
          (walk-set_in o front key (rows_of ms) o' (rw (e, set_slice) at h))
  ]

  -- Where `setSlice` succeeds with elements that are all read as resources of a type,
  -- `NestedResources` of that type at the same path gives these elements. The Kubernetes
  -- libraries are taken to be lawful (Machinery.IsLawful).
  pub nested_resources-set_slice :
      {A : Type 0} (c : Codec A) (o : Object) (ms : List Object) (path : List String) (o' : Object)
      → set_slice M o ms path ≡ ok o'
      → AllRead c ms
      → nested_resources M c o' path ≡ ok (some ms)
  unfolding nested_resources check_slice
  nested_resources-set_slice c o ms path o' h readable =
      let at_path : M.nested_field o' path ≡ found (rows_of ms) =
        subst (λ w. Reports w (M.nested_field o' path)) (walk-set_slice o ms path o' h)
          (L.nested_field-walk o' path) in
      rw (at_path, nested_resources) (rw (objects-row_list, check_objects-AllRead c ms readable))
