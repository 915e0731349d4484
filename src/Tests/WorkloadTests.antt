-- ===== src/Tests/WorkloadTests.antt =====
-- The edits of a workload and of its containers, on a pod specification with one container.
use service_binding_operator.Base.{String, ◌≡◌, ◌≢◌, refl, some, List, [], ◌∷◌, ok, any}
use service_binding_operator.Base.Dict.{lookup, insert}
use service_binding_operator.Base.FilePath.{path_join}
use service_binding_operator.Value.{text, Object, object_of, rows_of, objects, row_list}
use service_binding_operator.Machinery.{Volume, VolumeMount, walk, arrives}
use service_binding_operator.Workload.Slices.{set_slice, nested_resources}
use service_binding_operator.Workload.Slices.ReadBack.{walk-set_slice, nested_resources-set_slice}
use service_binding_operator.Workload.Slices.Again.{set_slice_again}
use service_binding_operator.Workload.Upserts.{upsert}
use service_binding_operator.Workload.Container.{
  MetaContainer, is_named, replace_volumes, is_mount, remove_env_from_vars, remove_volume, add_raw,
  add_env_from_var, add_volume_mount, add_volume, find_root, mount_path, binding_root,
}
use service_binding_operator.Workload.Container.Upsert.{resources}
use service_binding_operator.Workload.Container.Adding.{
  add_volume_mount-upsert, add_volume_mount_again, add_volume-upsert, add_volume_again,
}
use service_binding_operator.Workload.Container.Removing.{remove_volume-add_volume}
use service_binding_operator.Workload.Container.Environment.{mount_path_lem}
use service_binding_operator.Workload.Container.SecretRef.{remove_env_from_vars-add_env_from_var}
use service_binding_operator.Tests.Cluster.{machinery, machinery-IsLawful}

abbrev volumes : List String
volumes = "spec" ∷ "volumes" ∷ []

abbrev container : MetaContainer
container = record {
  name = "web";
  env = "env" ∷ [];
  env_from = "envFrom" ∷ [];
  volume_mount = "volumeMounts" ∷ [];
}

abbrev named : String → Object
named n = ("name", text n) ∷ []

abbrev secret_volume : Volume
secret_volume = record { name = "db"; secret_name = "db-secret" }

abbrev volume_map : Object
volume_map = ("name", text "db") ∷ ("secretName", text "db-secret") ∷ []

abbrev mount : VolumeMount
mount = record { name = "db"; mount_path = "/bindings/db" }

abbrev mount_map : Object
mount_map = ("name", text "db") ∷ ("mountPath", text "/bindings/db") ∷ []

abbrev bare_pod : Object
bare_pod = ("kind", text "Pod") ∷ []

abbrev pod : Object
pod = ("spec", object_of (("volumes", rows_of (named "tmp" ∷ [])) ∷ [])) ∷ []

abbrev pod_with_db : Object
pod_with_db = ("spec", object_of (("volumes", rows_of (named "tmp" ∷ volume_map ∷ [])) ∷ [])) ∷ []

abbrev web : Object
web = ("image", text "web") ∷ []

abbrev web_with_mount : Object
web_with_mount = ("image", text "web") ∷ ("volumeMounts", rows_of (mount_map ∷ [])) ∷ []

abbrev web_with_root : Object
web_with_root =
    ("image", text "web")
    ∷ (
      "env",
      rows_of ((("name", text "SERVICE_BINDING_ROOT") ∷ ("value", text "/bindings") ∷ []) ∷ []),
    )
    ∷ []

abbrev web_with_secret : Object
web_with_secret =
    ("image", text "web")
    ∷ ("envFrom", rows_of ((("secretRef", object_of (named "db-secret")) ∷ []) ∷ []))
    ∷ []

volumes_ne_nil : volumes ≢ []
volumes_ne_nil h = cc

walk-set_slice_example :
    walk
      (object_of (
        ("kind", text "Pod")
        ∷ ("spec", object_of (("volumes", rows_of (named "tmp" ∷ [])) ∷ []))
        ∷ []))
      volumes
    ≡ arrives (rows_of (named "tmp" ∷ []))
unfolding set_slice machinery insert lookup
walk-set_slice_example =
    walk-set_slice machinery machinery-IsLawful bare_pod (named "tmp" ∷ []) volumes
      (("kind", text "Pod")
        ∷ ("spec", object_of (("volumes", rows_of (named "tmp" ∷ [])) ∷ []))
        ∷ [])
      refl

nested_resources-set_slice_example :
    nested_resources machinery machinery.volume pod_with_db volumes
    ≡ ok (some (named "tmp" ∷ volume_map ∷ []))
unfolding set_slice machinery insert lookup
nested_resources-set_slice_example =
    nested_resources-set_slice machinery machinery-IsLawful machinery.volume pod
      (named "tmp" ∷ volume_map ∷ []) volumes pod_with_db refl ((_, refl), ((_, refl), tt))

set_slice_again_example :
    set_slice machinery pod_with_db (named "tmp" ∷ volume_map ∷ []) volumes ≡ ok pod_with_db
unfolding set_slice machinery insert lookup
set_slice_again_example =
    set_slice_again machinery machinery-IsLawful pod (named "tmp" ∷ volume_map ∷ []) volumes
      pod_with_db refl

add_volume_mount-upsert_example :
    (u : Object) × (machinery.volume_mount.read u ≡ ok mount)
    × (resources machinery machinery.volume_mount web_with_mount container.volume_mount
        ≡ upsert
            (is_mount machinery "db")
            u
            (resources machinery machinery.volume_mount web container.volume_mount))
unfolding add_volume_mount machinery nested_resources set_slice insert lookup
add_volume_mount-upsert_example =
    add_volume_mount-upsert machinery machinery-IsLawful container mount web web_with_mount refl

add_volume_mount_again_example :
    add_volume_mount machinery container mount web_with_mount ≡ (ok tt, web_with_mount)
unfolding add_volume_mount machinery nested_resources set_slice insert lookup
add_volume_mount_again_example =
    add_volume_mount_again machinery machinery-IsLawful container mount web web_with_mount refl

add_volume-upsert_example :
    (u : Object) × (machinery.volume.read u ≡ ok secret_volume)
    × (resources machinery machinery.volume pod_with_db volumes
        ≡ upsert (is_named "db") u (resources machinery machinery.volume pod volumes))
unfolding add_volume machinery nested_resources set_slice insert lookup objects row_list
    replace_volumes is_named
add_volume-upsert_example =
    add_volume-upsert machinery machinery-IsLawful volumes secret_volume pod pod_with_db refl

add_volume_again_example :
    add_volume machinery volumes secret_volume pod_with_db ≡ (ok tt, pod_with_db)
unfolding add_volume machinery nested_resources set_slice insert lookup objects row_list
    replace_volumes is_named
add_volume_again_example =
    add_volume_again machinery machinery-IsLawful volumes secret_volume pod pod_with_db refl

remove_volume-add_volume_example :
    (o : Object) × (remove_volume machinery volumes "db" pod_with_db ≡ (ok tt, o))
    × (resources machinery machinery.volume o volumes
        ≡ resources machinery machinery.volume pod volumes)
unfolding add_volume machinery nested_resources set_slice any is_named insert lookup objects
    row_list replace_volumes
remove_volume-add_volume_example =
    remove_volume-add_volume machinery machinery-IsLawful volumes secret_volume pod pod_with_db
      volumes_ne_nil refl refl

mount_path_lem_example :
    ("/bindings/db" ≡ path_join "/bindings" "db")
    × (find_root machinery (resources machinery machinery.env_var web_with_root container.env)
        ≡ some binding_root)
    × (mount_path machinery container "db" web_with_root ≡ (ok "/bindings/db", web_with_root))
unfolding mount_path machinery nested_resources set_slice find_root path_join insert lookup
mount_path_lem_example =
    mount_path_lem machinery machinery-IsLawful container "db" web web_with_root "/bindings/db" refl

remove_env_from_vars-add_env_from_var_example :
    (o : Object) × (remove_env_from_vars machinery container "db-secret" web_with_secret
      ≡ (ok tt, o))
    × (resources machinery machinery.env_from o container.env_from
        ≡ resources machinery machinery.env_from web container.env_from)
unfolding add_env_from_var machinery nested_resources set_slice any remove_env_from_vars add_raw
    insert lookup
remove_env_from_vars-add_env_from_var_example =
    remove_env_from_vars-add_env_from_var machinery machinery-IsLawful container
      (record { secret_ref = some "db-secret" }) "db-secret" web web_with_secret refl refl refl refl
