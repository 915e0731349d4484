-- ===== src/Workload/Container/Upsert.antt =====
-- Lemmas that relate the loops of `AddVolume` and `AddVolumeMount` to their specification.
use service_binding_operator.Base.{
  String, ◌≡◌, refl, Bool, Option, none, some, List, [], ◌∷◌, Result, ok, arith, any, Bool-cases,
  inl, inr, ◌∙◌,
}
use service_binding_operator.Value.{Object}
use service_binding_operator.Machinery.{Machinery, IsLawful, Codec, Volume, VolumeMount}
use service_binding_operator.Workload.Edit.{gets, replace, ◌>>=◌ as ◌>>=ₑ◌, gets-ok}
use service_binding_operator.Workload.Slices.{nested_resources, set_slice}
use service_binding_operator.Workload.Slices.Readable.{AllRead, nested_resources_sound}
use service_binding_operator.Workload.Slices.ReadBack.{nested_resources-set_slice}
use service_binding_operator.Workload.Upserts.{overwrite, overwrite_none, upsert, upsert-nil}
use service_binding_operator.Workload.Container.{
  MetaContainer, add_volume_mount, add_volume, replace_mounts, replace_volumes, close_list,
  put_mount, put_volume, is_mount, is_named,
}

-- The resources at a path; none where nothing is found.
abbrev pub resources : {A : Type 0} → Machinery → Codec A → Object → List String → List Object
resources M c o path = elim (nested_resources M c o path) [ ok (some ms) ↦ ms | _ ↦ [] ]

abbrev pub or_nil : Option (List Object) → List Object
or_nil none = []
or_nil (some ms) = ms

close_list-upsert :
    (p : Object → Bool) (u : Object) (ms : List Object)
    → close_list u (overwrite p u ms, any p ms) ≡ upsert p u ms
unfolding upsert
close_list-upsert p u ms = elim (Bool-cases (any p ms)) [
  | inl e ↦ rw e
  | inr e ↦ rw (e, overwrite_none p u ms e)
]

replace_volumes-eq :
    (name : String) (u : Object) (ms : List Object)
    → replace_volumes name u ms ≡ (overwrite (is_named name) u ms, any (is_named name) ms)
unfolding replace_volumes overwrite any
replace_volumes-eq name u [] = refl
replace_volumes-eq name u (m ∷ ms) = ground (arith, replace_volumes-eq name u ms)

module _ (M : Machinery) where
  replace_mounts-AllRead :
      (name : String) (u : Object) (ms : List Object)
      → AllRead M.volume_mount ms
      → replace_mounts M name u ms ≡ ok (overwrite (is_mount M name) u ms, any (is_mount M name) ms)
  unfolding replace_mounts overwrite any is_mount
  replace_mounts-AllRead name u [] h = refl
  replace_mounts-AllRead name u (m ∷ ms) ((mount, e), h) =
      rw (e, replace_mounts-AllRead name u ms h) (ground arith)

  pub found_AllRead :
      {A : Type 0} (c : Codec A) (o : Object) (path : List String) (old : Option (List Object))
      → nested_resources M c o path ≡ ok old
      → AllRead c (or_nil old)
  found_AllRead c o path none e = tt
  found_AllRead c o path (some ms) e = nested_resources_sound c M o path e

  -- `AddVolumeMount` on an object whose mounts can be read.
  pub add_volume_mount_lem :
      (c : MetaContainer) (mount : VolumeMount) (o u : Object) (old : Option (List Object))
      → M.volume_mount.write mount ≡ ok u
      → nested_resources M M.volume_mount o c.volume_mount ≡ ok old
      → add_volume_mount M c mount o
        ≡ replace
            (λ o. set_slice M o (upsert (is_mount M mount.name) u (or_nil old)) c.volume_mount)
            o
  unfolding add_volume_mount
  add_volume_mount_lem c mount o u old written read =
      gets-ok (λ _. M.volume_mount.write mount) (λ u. gets nested >>=ₑ put_mount M path name u) o
        written
      ∙ gets-ok nested (put_mount M path name u) o read
      ∙ put_old old read
    where
      path : List String
      path = c.volume_mount

      name : String
      name = mount.name

      nested : Object → Result (Option (List Object))
      nested o = nested_resources M M.volume_mount o path

      put_old :
          (old : Option (List Object))
          → nested o ≡ ok old
          → put_mount M path name u old o
            ≡ replace (λ o. set_slice M o (upsert (is_mount M name) u (or_nil old)) path) o
      put_old none e = rw upsert-nil
      put_old (some ms) e =
          gets-ok (λ _. replace_mounts M name u ms)
            (λ l. replace (λ o. set_slice M o (close_list u l) path)) o
            (replace_mounts-AllRead name u ms (found_AllRead M.volume_mount o path (some ms) e))
          ∙ rw close_list-upsert

  -- `AddVolume` on an object whose volumes can be read.
  pub add_volume_lem :
      (path : List String) (volume : Volume) (o u : Object) (old : Option (List Object))
      → M.volume.write volume ≡ ok u
      → nested_resources M M.volume o path ≡ ok old
      → add_volume M path volume o
        ≡ replace (λ o. set_slice M o (upsert (is_named volume.name) u (or_nil old)) path) o
  unfolding add_volume
  add_volume_lem path volume o u old written read =
      gets-ok (λ _. M.volume.write volume) (λ u. gets nested >>=ₑ put_volume M path volume.name u) o
        written
      ∙ gets-ok nested (put_volume M path volume.name u) o read
      ∙ put_old old
    where
      nested : Object → Result (Option (List Object))
      nested o = nested_resources M M.volume o path

      put_old :
          (old : Option (List Object))
          → put_volume M path volume.name u old o
            ≡ replace (λ o. set_slice M o (upsert (is_named volume.name) u (or_nil old)) path) o
      put_old none = rw upsert-nil
      put_old (some ms) = rw (replace_volumes-eq, close_list-upsert)

  pub resources-eq :
      {A : Type 0} (c : Codec A) (o : Object) (path : List String) (old : Option (List Object))
      → nested_resources M c o path ≡ ok old
      → resources M c o path ≡ or_nil old
  resources-eq c o path none e = rw (e, resources)
  resources-eq c o path (some ms) e = rw (e, resources)

  -- A list that was written and can be read is what `resources` shows.
  pub resources-set_slice :
      {A : Type 0} (c : Codec A)
      → IsLawful M
      → (path : List String) (ms : List Object) (o o' : Object) → AllRead c ms
      → set_slice M o ms path ≡ ok o'
      → resources M c o' path ≡ ms
  resources-set_slice c L path ms o o' all h =
      resources-eq c o' path (some ms) (nested_resources-set_slice M L c o ms path o' h all)
