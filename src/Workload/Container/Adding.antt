-- ===== src/Workload/Container/Adding.antt =====
-- Lemmas on `AddVolume` and `AddVolumeMount`: what they leave in the object.
use service_binding_operator.Base.{String, ◌≡◌, sym, ◌∙◌, ap, true, Option, some, List, ok, eq_refl}
use service_binding_operator.Base.Dict.{lookup}
use service_binding_operator.Value.{Object, text}
use service_binding_operator.Machinery.{Machinery, IsLawful, Volume, VolumeMount}
use service_binding_operator.Workload.Edit.{gets, replace, ◌>>=◌, gets-eq-ok, replace-eq-ok}
use service_binding_operator.Workload.Slices.{nested_resources, set_slice}
use service_binding_operator.Workload.Slices.ReadBack.{nested_resources-set_slice}
use service_binding_operator.Workload.Slices.Again.{set_slice_again}
use service_binding_operator.Workload.Upserts.{upsert, upsert_again, AllRead-upsert}
use service_binding_operator.Workload.Container.{
  MetaContainer, add_volume_mount, add_volume, is_mount, is_named, put_mount, put_volume,
}
use service_binding_operator.Workload.Container.Upsert.{
  resources, or_nil, resources-eq, resources-set_slice, found_AllRead, add_volume_mount_lem,
  add_volume_lem,
}

module _ (M : Machinery) where
  is_mount_self :
      (mount : VolumeMount) {u : Object}
      → M.volume_mount.read u ≡ ok mount
      → is_mount M mount.name u ≡ true
  unfolding is_mount
  is_mount_self mount h = rw (h, is_mount) (eq_refl mount.name)

  pub is_named_self :
      (name : String) (u : Object) → lookup "name" u ≡ some (text name) → is_named name u ≡ true
  unfolding is_named
  is_named_self name u h = rw (h, is_named) (eq_refl name)

module _ (M : Machinery) (L : IsLawful M) where
  -- What a successful `AddVolumeMount` read and wrote.
  mount_added :
      (c : MetaContainer) (mount : VolumeMount) (o o' : Object)
      → add_volume_mount M c mount o ≡ (ok tt, o')
      → (u : Object) × (old : Option (List Object)) × (M.volume_mount.write mount ≡ ok u)
        × (nested_resources M M.volume_mount o c.volume_mount ≡ ok old)
        × (set_slice M o (upsert (is_mount M mount.name) u (or_nil old)) c.volume_mount ≡ ok o')
  unfolding add_volume_mount
  mount_added c mount o o' h =
      let nested = λ (o : Object). nested_resources M M.volume_mount o c.volume_mount in
      let put = put_mount M c.volume_mount mount.name in
      let (u, written, h₁) =
        gets-eq-ok (λ _. M.volume_mount.write mount) (λ u. gets nested >>= put u) o h in
      let (old, read, h₂) = gets-eq-ok nested (put u) o h₁ in
      (
        u,
        old,
        written,
        read,
        replace-eq-ok
            (λ o. set_slice M o (upsert (is_mount M mount.name) u (or_nil old)) c.volume_mount) o
            (sym (add_volume_mount_lem M c mount o u old written read) ∙ h),
      )

  -- Where `AddVolumeMount` succeeds, the mounts are those of before with one that reads as the
  -- given mount in the place of each of its name, or at the end if there was none of that name.
  -- The Kubernetes libraries are taken to be lawful (Machinery.IsLawful).
  pub add_volume_mount-upsert :
      (c : MetaContainer) (mount : VolumeMount) (o o' : Object)
      → add_volume_mount M c mount o ≡ (ok tt, o')
      → (u : Object) × (M.volume_mount.read u ≡ ok mount)
        × (resources M M.volume_mount o' c.volume_mount
            ≡ upsert (is_mount M mount.name) u (resources M M.volume_mount o c.volume_mount))
  add_volume_mount-upsert c mount o o' h =
      let (u, old, written, read, wrote) = mount_added c mount o o' h in
      let r = L.volume_mount-write mount written in
      let p = is_mount M mount.name in
      let all =
        AllRead-upsert M.volume_mount p u (or_nil old) (mount, r)
          (found_AllRead M M.volume_mount o c.volume_mount old read) in
      (
        u,
        r,
        resources-set_slice M M.volume_mount L c.volume_mount _ o o' all wrote
            ∙ ap (upsert p u) (sym (resources-eq M M.volume_mount o c.volume_mount old read)),
      )

  -- Where `AddVolumeMount` succeeds, a second `AddVolumeMount` of the same mount succeeds and
  -- leaves the object as the first one left it. The Kubernetes libraries are taken to be lawful
  -- (Machinery.IsLawful).
  pub add_volume_mount_again :
      (c : MetaContainer) (mount : VolumeMount) (o o' : Object)
      → add_volume_mount M c mount o ≡ (ok tt, o')
      → add_volume_mount M c mount o' ≡ (ok tt, o')
  add_volume_mount_again c mount o o' h =
      let (u, old, written, read, wrote) = mount_added c mount o o' h in
      let p = is_mount M mount.name in
      let r = L.volume_mount-write mount written in
      let l = upsert p u (or_nil old) in
      let all =
        AllRead-upsert M.volume_mount p u (or_nil old) (mount, r)
          (found_AllRead M M.volume_mount o c.volume_mount old read) in
      add_volume_mount_lem M c mount o' u (some l) written
        (nested_resources-set_slice M L M.volume_mount o l c.volume_mount o' wrote all)
      ∙ rw (
        upsert_again p u (or_nil old) (is_mount_self M mount r),
        set_slice_again M L o l c.volume_mount o' wrote,
        replace,
      )

  -- What a successful `AddVolume` read and wrote.
  pub volume_added :
      (path : List String) (volume : Volume) (o o' : Object)
      → add_volume M path volume o ≡ (ok tt, o')
      → (u : Object) × (old : Option (List Object)) × (M.volume.write volume ≡ ok u)
        × (nested_resources M M.volume o path ≡ ok old)
        × (set_slice M o (upsert (is_named volume.name) u (or_nil old)) path ≡ ok o')
  unfolding add_volume
  volume_added path volume o o' h =
      let nested = λ (o : Object). nested_resources M M.volume o path in
      let put = put_volume M path volume.name in
      let (u, written, h₁) =
        gets-eq-ok (λ _. M.volume.write volume) (λ u. gets nested >>= put u) o h in
      let (old, read, h₂) = gets-eq-ok nested (put u) o h₁ in
      (
        u,
        old,
        written,
        read,
        replace-eq-ok (λ o. set_slice M o (upsert (is_named volume.name) u (or_nil old)) path) o
            (sym (add_volume_lem M path volume o u old written read) ∙ h),
      )

  -- Where `AddVolume` succeeds, the volumes are those of before with one that reads as the given
  -- volume in the place of each of its name, or at the end if there was none of that name. The
  -- Kubernetes libraries are taken to be lawful (Machinery.IsLawful).
  pub add_volume-upsert :
      (path : List String) (volume : Volume) (o o' : Object)
      → add_volume M path volume o ≡ (ok tt, o')
      → (u : Object) × (M.volume.read u ≡ ok volume)
        × (resources M M.volume o' path
            ≡ upsert (is_named volume.name) u (resources M M.volume o path))
  add_volume-upsert path volume o o' h =
      let (u, old, written, read, wrote) = volume_added path volume o o' h in
      let r = (L.volume-write volume written).0 in
      let p = is_named volume.name in
      let all =
        AllRead-upsert M.volume p u (or_nil old) (volume, r)
          (found_AllRead M M.volume o path old read) in
      (
        u,
        r,
        resources-set_slice M M.volume L path _ o o' all wrote
            ∙ ap (upsert p u) (sym (resources-eq M M.volume o path old read)),
      )

  -- Where `AddVolume` succeeds, a second `AddVolume` of the same volume succeeds and leaves the
  -- object as the first one left it. The Kubernetes libraries are taken to be lawful
  -- (Machinery.IsLawful).
  pub add_volume_again :
      (path : List String) (volume : Volume) (o o' : Object)
      → add_volume M path volume o ≡ (ok tt, o')
      → add_volume M path volume o' ≡ (ok tt, o')
  add_volume_again path volume o o' h =
      let (u, old, written, read, wrote) = volume_added path volume o o' h in
      let p = is_named volume.name in
      let (r, named) = L.volume-write volume written in
      let l = upsert p u (or_nil old) in
      let all =
        AllRead-upsert M.volume p u (or_nil old) (volume, r)
          (found_AllRead M M.volume o path old read) in
      add_volume_lem M path volume o' u (some l) written
        (nested_resources-set_slice M L M.volume o l path o' wrote all)
      ∙ rw (
        upsert_again p u (or_nil old) (is_named_self M volume.name u named),
        set_slice_again M L o l path o' wrote,
        replace,
      )
