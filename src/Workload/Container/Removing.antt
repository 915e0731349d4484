-- ===== src/Workload/Container/Removing.antt =====
-- Lemmas on the `Remove…` methods after the `Add…` methods.
use service_binding_operator.Base.{
  String, ◌≡◌, ◌≢◌, sym, ◌∙◌, Bool, true, false, Option, none, some, List, [], ◌∷◌, ◌++◌, ok, arith,
  any, ◌==◌, subst, fun_ext,
}
use service_binding_operator.Base.Dict.{lookup}
use service_binding_operator.Value.{Object, Value, text}
use service_binding_operator.Machinery.{
  Machinery, IsLawful, Codec, Volume, Nested, found, walk, ReportsText,
}
use service_binding_operator.Workload.Edit.{replace, gets-ok}
use service_binding_operator.Workload.Slices.{nested_resources, set_slice}
use service_binding_operator.Workload.Slices.Readable.{Reads, AllRead, AllRead-append}
use service_binding_operator.Workload.Slices.ReadBack.{
  nested_resources-set_slice, walk-set_slice, walk_from, walk-object_of,
}
use service_binding_operator.Workload.Slices.Again.{set_slice_total}
use service_binding_operator.Workload.Upserts.{upsert}
use service_binding_operator.Workload.Container.{
  add_volume, remove_volume, remove_where, remove_found, remove_first, is_named, has_text,
}
use service_binding_operator.Workload.Container.Upsert.{
  resources, or_nil, resources-eq, resources-set_slice, found_AllRead,
}
use service_binding_operator.Workload.Container.Adding.{volume_added, is_named_self}

-- The first removal from a list with one match, at its end, gives what stood before it.
remove_first-append :
    (p : Object → Bool) (ms : List Object) (u : Object)
    → any p ms ≡ false
    → p u ≡ true
    → remove_first p (ms ++ (u ∷ [])) ≡ some ms
unfolding remove_first any
remove_first-append p [] u none_there h = rw h
remove_first-append p (m ∷ ms) u none_there h = ground (arith, remove_first-append p ms u)

upsert_new :
    (p : Object → Bool) (ms : List Object) (u : Object)
    → any p ms ≡ false
    → upsert p u ms ≡ ms ++ (u ∷ [])
unfolding upsert
upsert_new p ms u h = rw h

module _ (M : Machinery) where
  -- A removal from the resources that are there.
  remove_where_lem :
      {A : Type 0} (c : Codec A) (path : List String) (p : Object → Bool) (o : Object)
      (ms s : List Object)
      → nested_resources M c o path ≡ ok (some ms)
      → remove_first p ms ≡ some s
      → remove_where M c path p o ≡ replace (λ o. set_slice M o s path) o
  unfolding remove_where
  remove_where_lem c path p o ms s read removed =
      gets-ok (λ o. nested_resources M c o path) (remove_found M path p) o read
      ∙ rw (removed, remove_found)

  module _ (L : IsLawful M) where
    -- The test on the name that `RemoveVolume` makes is the one that `AddVolume` makes.
    has_text-is_named :
        (name : String) (m : Object) → has_text M ("name" ∷ []) name m ≡ is_named name m
    unfolding has_text is_named walk
    has_text-is_named name m = agree (lookup "name" m) (M.nested_string m ("name" ∷ [])) (
        subst (λ w. ReportsText w (M.nested_string m ("name" ∷ []))) (walk-object_of m "name" [])
          (L.nested_string-walk m ("name" ∷ [])))
      where
        agree :
            (q : Option Value) (r : Nested String)
            → ReportsText (walk_from q []) r
            → (elim r [ found val ↦ val == name | _ ↦ false ])
              ≡ (elim q [ some (text n) ↦ n == name | _ ↦ false ])
        agree none r h = rw h
        agree (some (text s)) r h = rw h
        agree (some _) r (e, h) = rw h

    -- With one match at the end of the list, a removal succeeds and leaves what stood before it.
    pub remove_where-append :
        {A : Type 0} (c : Codec A) (path : List String) (p : Object → Bool) (o₀ o : Object)
        (ms : List Object) (u : Object)
        → path ≢ []
        → any p ms ≡ false
        → p u ≡ true
        → AllRead c ms
        → Reads c u
        → set_slice M o₀ (ms ++ (u ∷ [])) path ≡ ok o
        → (o' : Object) × (remove_where M c path p o ≡ (ok tt, o')) × (resources M c o' path ≡ ms)
    remove_where-append c path p o₀ o ms u longer fresh self all r wrote =
        let read =
          nested_resources-set_slice M L c o₀ (ms ++ (u ∷ [])) path o wrote
            (AllRead-append c ms (u ∷ []) all (r, tt)) in
        let (o', cut) =
          set_slice_total M L o ms path (walk-set_slice M L o₀ _ path o wrote) longer in
        (
          o',
          remove_where_lem c path p o _ ms read (remove_first-append p ms u fresh self)
              ∙ rw (cut, replace),
          resources-set_slice M c L path ms o o' all cut,
        )

    -- Where `AddVolume` at a path that is not empty succeeds with a volume of a name that none
    -- there has, `RemoveVolume` of that name succeeds and the volumes are those of before. The
    -- Kubernetes libraries are taken to be lawful (Machinery.IsLawful).
    pub remove_volume-add_volume :
        (path : List String) (volume : Volume) (o o' : Object)
        → path ≢ []
        → any (is_named volume.name) (resources M M.volume o path) ≡ false
        → add_volume M path volume o ≡ (ok tt, o')
        → (o'' : Object) × (remove_volume M path volume.name o' ≡ (ok tt, o''))
          × (resources M M.volume o'' path ≡ resources M M.volume o path)
    unfolding remove_volume
    remove_volume-add_volume path volume o o' longer fresh h =
        let (u, old, written, read, wrote) = volume_added M L path volume o o' h in
        let (r, named) = L.volume-write volume written in
        let p = is_named volume.name in
        let there = resources-eq M M.volume o path old read in
        let new = rw there at fresh in
        let (o'', cut, left) =
          remove_where-append M.volume path p o o' (or_nil old) u longer new
            (is_named_self M volume.name u named) (found_AllRead M M.volume o path old read)
            (volume, r) (rw (upsert_new p (or_nil old) u new) at wrote) in
        (o'', rw (fun_ext (has_text-is_named volume.name)) cut, left ∙ sym there)
