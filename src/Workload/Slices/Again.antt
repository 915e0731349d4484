-- ===== src/Workload/Slices/Again.antt =====
-- Lemmas on writing a slice where it stands already.
use service_binding_operator.Base.{
  String, ◌≡◌, ◌≢◌, refl, sym, ap, ◌∙◌, subst, Option, none, some, List, [], ◌∷◌, ◌++◌, ok, arith,
  Option-cases, inl, inr,
}
use service_binding_operator.Base.Dict.{lookup, insert_same}
use service_binding_operator.Value.{
  Value, object, Fields, Object, object_of, rows_of, entries, fields-entries,
}
use service_binding_operator.Machinery.{Machinery, IsLawful, found, walk, arrives, Reports}
use service_binding_operator.Workload.Slices.{split_last, write_at, set_in, set_slice}
use service_binding_operator.Workload.Slices.ReadBack.{
  walk_from, walk-object_of, walk-nil, split_last-eq-some, walk-set_slice,
}

walk_from-nil : (q : Option Value) {v : Value} → walk_from q [] ≡ arrives v → q ≡ some v
unfolding walk
walk_from-nil none h = cc
walk_from-nil (some u) h = cc

-- A walk of more than one key that ends somewhere begins in a map.
walk_from-longer :
    (q : Option Value) (ps : List String) (key : String) {v : Value}
    → walk_from q (ps ++ (key ∷ [])) ≡ arrives v
    → (g : Fields) × (q ≡ some (object g))
      × (walk (object_of (entries g)) (ps ++ (key ∷ [])) ≡ arrives v)
unfolding walk
walk_from-longer (some (object g)) ps key h = (g, refl, rw fields-entries h)
walk_from-longer none ps key h = cc
walk_from-longer (some _) [] key h = cc
walk_from-longer (some _) (q ∷ qs) key h = cc

write_at_same :
    (o : Object) (ps : List String) (key : String) (v : Value)
    → walk (object_of o) (ps ++ (key ∷ [])) ≡ arrives v
    → write_at o ps key v ≡ o
unfolding write_at
write_at_same o [] key v h =
    insert_same key v o (walk_from-nil (lookup key o) (sym (walk-object_of o key []) ∙ h))
write_at_same o (p ∷ ps) key v h =
    let (g, at_p, beyond) = walk_from-longer (lookup p o) ps key (sym (walk-object_of o p _) ∙ h) in
    rw (at_p, write_at)
      (rw (write_at_same (entries g) ps key v beyond, fields-entries)
        (insert_same p (object g) o at_p))

-- The map in front of the last key.
walk-front :
    (o : Object) (ps : List String) (key : String) {v : Value}
    → walk (object_of o) (ps ++ (key ∷ [])) ≡ arrives v
    → (f : Fields) × (walk (object_of o) ps ≡ arrives (object f))
walk-front o [] key h = (_, walk-nil _)
walk-front o (p ∷ ps) key h =
    let (g, at_p, beyond) = walk_from-longer (lookup p o) ps key (sym (walk-object_of o p _) ∙ h) in
    let (f, there) = walk-front (entries g) ps key beyond in
    (f, rw (walk-object_of, at_p) (rw (← fields-entries g) there))

split_last-eq-none : (path : List String) → split_last path ≡ none → path ≡ []
unfolding split_last
split_last-eq-none [] h = refl
split_last-eq-none (k ∷ ks) h = ground arith

module _ (M : Machinery) (L : IsLawful M) where
  set_in_same :
      (o : Object) (front : List String) (key : String) (v : Value)
      → walk (object_of o) (front ++ (key ∷ [])) ≡ arrives v
      → set_in M o front key v ≡ ok o
  unfolding set_in
  set_in_same o [] key v h = ap ok (write_at_same o [] key v h)
  set_in_same o (p ∷ ps) key v h =
      let (f, there) = walk-front o (p ∷ ps) key h in
      let reported : M.nested_field o (p ∷ ps) ≡ found (object f) =
        subst (λ w. Reports w (M.nested_field o (p ∷ ps))) there (L.nested_field-walk o (p ∷ ps)) in
      rw (reported, set_in) (ap ok (write_at_same o (p ∷ ps) key v h))

  -- Where `setSlice` succeeds, a second one of the same slice at the same path succeeds and
  -- leaves the object as the first one left it. The Kubernetes libraries are taken to be lawful
  -- (Machinery.IsLawful).
  pub set_slice_again :
      (o : Object) (ms : List Object) (path : List String) (o' : Object)
      → set_slice M o ms path ≡ ok o'
      → set_slice M o' ms path ≡ ok o'
  unfolding set_slice
  set_slice_again o ms path o' h = elim (Option-cases (split_last path)) [
    | inl e ↦ cc (rw (e, set_slice) at h)
    | inr ((front, key), e) ↦
        rw (e, set_slice)
          (set_in_same o' front key (rows_of ms)
            (rw (split_last-eq-some path e) at (walk-set_slice M L o ms path o' h)))
  ]

  -- Where a path leads to a value, a slice can be written there.
  pub set_slice_total :
      (o : Object) (ms : List Object) (path : List String) {v : Value}
      → walk (object_of o) path ≡ arrives v
      → path ≢ []
      → (o' : Object) × (set_slice M o ms path ≡ ok o')
  unfolding set_slice set_in
  set_slice_total o ms path {v} h longer = elim (Option-cases (split_last path)) [
    | inl e ↦ absurd (longer (split_last-eq-none path e))
    | inr ((front, key), e) ↦
        let (o', w) = set_in_total front key (rows_of ms) (rw (split_last-eq-some path e) at h) in
        (o', rw (e, set_slice) w)
  ]
    where
      set_in_total :
          (front : List String) (key : String) (w : Value)
          → walk (object_of o) (front ++ (key ∷ [])) ≡ arrives v
          → (o' : Object) × (set_in M o front key w ≡ ok o')
      set_in_total [] key w h = (_, refl)
      set_in_total (p ∷ ps) key w h =
          let (f, there) = walk-front o (p ∷ ps) key h in
          let reported : M.nested_field o (p ∷ ps) ≡ found (object f) =
            subst (λ w. Reports w (M.nested_field o (p ∷ ps))) there
              (L.nested_field-walk o (p ∷ ps)) in
          (write_at o (p ∷ ps) key w, rw (reported, set_in))
