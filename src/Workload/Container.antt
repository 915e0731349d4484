-- ===== src/Workload/Container.antt =====
-- The methods of `MetaContainer` and `MetaPodSpec`. An edit runs on `Data`, the object of the
-- container or of the whole workload; the paths are those of the workload's mapping.
pub mod Upsert
pub mod Adding
pub mod Removing
pub mod Environment
pub mod SecretRef
use service_binding_operator.Base.{
  String, Bool, true, false, Option, none, some, List, [], ◌∷◌, ◌++◌, Result, ok, err, panic, error,
  ◌==◌, if◌then◌else◌,
}
use service_binding_operator.Base
use service_binding_operator.Base.Dict.{lookup}
use service_binding_operator.Base.FilePath.{path_join}
use service_binding_operator.Value.{Object, text}
use service_binding_operator.Machinery.{
  Machinery, Codec, found, EnvVar, EnvFromSource, Volume, VolumeMount,
}
use service_binding_operator.Workload.Edit.{
  Edit, gets, done, pure, fail, replace, ◌>>=◌, ◌>>◌, ignore_error,
}
use service_binding_operator.Workload.Slices.{nested_resources, set_slice}

-- `MetaContainer` without its `Data`.
pub record MetaContainer : Type 0 where
  pub name : String
  pub env : List String
  pub env_from : List String
  pub volume_mount : List String

-- The list without its first element that passes the test, if there is one.
unfoldable pub remove_first : (Object → Bool) → List Object → Option (List Object)
remove_first p [] = none
remove_first p (m ∷ ms) =
    let rest = remove_first p ms in
    if p m then some ms else elim rest [ none ↦ none | some ms' ↦ some (m ∷ ms') ]

-- `if !exist { append }`
abbrev close_list : Object → List Object × Bool → List Object
close_list u l = if l.1 then l.0 else l.0 ++ (u ∷ [])

-- `vol["name"] == name`
unfoldable pub is_named : String → Object → Bool
is_named name m = elim (lookup "name" m) [ some (text n) ↦ n == name | _ ↦ false ]

unfoldable pub replace_volumes : String → Object → List Object → List Object × Bool
replace_volumes name u [] = ([], false)
replace_volumes name u (m ∷ ms) =
    let (ms', exist) = replace_volumes name u ms in
    if is_named name m then (u ∷ ms', true) else (m ∷ ms', exist)

abbrev pub binding_root_env_var : String
binding_root_env_var = "SERVICE_BINDING_ROOT"

abbrev pub binding_root : String
binding_root = "/bindings"

abbrev pub root_var : EnvVar
root_var = record { name = binding_root_env_var; value = binding_root; secret_key_ref = none }

module _ (M : Machinery) where
  -- `val, found, err := NestedString(m, path...)`, then `found && err == nil && val == name`.
  unfoldable pub has_text : List String → String → Object → Bool
  has_text path name m = elim (M.nested_string m path) [ found val ↦ val == name | _ ↦ false ]

  -- `FromUnstructured(m, &mount)`, then `err == nil && mount.Name == name`.
  unfoldable pub is_mount : String → Object → Bool
  is_mount name m = elim (M.volume_mount.read m) [ ok mount ↦ mount.name == name | _ ↦ false ]

  -- The loop of a `Remove…` method: it takes out the first resource that passes the test.
  abbrev remove_found : List String → (Object → Bool) → Option (List Object) → Edit (Unit {0})
  remove_found path p none = done
  remove_found path p (some ms) = elim (remove_first p ms) [
    | none ↦ done
    | some s ↦ replace (λ o. set_slice M o s path)
  ]

  unfoldable pub remove_where :
      {A : Type 0} → Codec A → List String → (Object → Bool) → Edit (Unit {0})
  remove_where c path p = do ms ← gets (λ o. nested_resources M c o path); remove_found path p ms

  unfoldable pub remove_env_vars : MetaContainer → String → Edit (Unit {0})
  unfolding remove_where
  remove_env_vars c name = remove_where M.env_var c.env (has_text ("name" ∷ []) name)

  unfoldable pub remove_env_from_vars : MetaContainer → String → Edit (Unit {0})
  unfolding remove_where
  remove_env_from_vars c secret_name =
      remove_where M.env_from c.env_from (has_text ("secretRef" ∷ "name" ∷ []) secret_name)

  unfoldable pub remove_volume_mount : MetaContainer → String → Edit (Unit {0})
  unfolding remove_where
  remove_volume_mount c name = remove_where M.volume_mount c.volume_mount (is_mount name)

  -- `MetaPodSpec.RemoveVolume`, with the path of the volumes.
  unfoldable pub remove_volume : List String → String → Edit (Unit {0})
  unfolding remove_where
  remove_volume path name = remove_where M.volume path (has_text ("name" ∷ []) name)

  abbrev append_to : List Object → List String → Option (List Object) → Edit (Unit {0})
  append_to ms path none = replace (λ o. set_slice M o ms path)
  append_to ms path (some old) = replace (λ o. set_slice M o (old ++ ms) path)

  unfoldable pub add_raw : {A : Type 0} → Codec A → List Object → List String → Edit (Unit {0})
  add_raw c ms path = do old ← gets (λ o. nested_resources M c o path); append_to ms path old

  -- The first loop of `AddEnvVars`.
  unfoldable pub remove_all_env_vars : MetaContainer → List EnvVar → Edit (Unit {0})
  remove_all_env_vars c [] = done
  remove_all_env_vars c (v ∷ vs) = do
    ignore_error (remove_env_vars c v.name)
    remove_all_env_vars c vs

  -- The second loop of `AddEnvVars`.
  unfoldable pub write_env_vars : List EnvVar → Result (List Object)
  write_env_vars [] = ok []
  write_env_vars (v ∷ vs) =
      let rest = write_env_vars vs in
      Base.◌>>=◌ (M.env_var.write v) (λ u. Base.◌>>=◌ rest (λ us. ok (u ∷ us)))

  unfoldable pub add_env_vars : MetaContainer → List EnvVar → Edit (Unit {0})
  add_env_vars c vars = do
    remove_all_env_vars c vars
    us ← gets (λ _. write_env_vars vars)
    add_raw M.env_var us c.env

  -- `AddEnvFromVar` where the container has a path for `envFrom`.
  abbrev add_secret_ref : MetaContainer → EnvFromSource → String → Edit (Unit {0})
  add_secret_ref c source name = do
    ignore_error (remove_env_from_vars c name)
    u ← gets (λ _. M.env_from.write source)
    add_raw M.env_from (u ∷ []) c.env_from

  unfoldable pub add_env_from_var : MetaContainer → EnvFromSource → Edit (Unit {0})
  add_env_from_var c source = elim c.env_from [
    | [] ↦ fail (error "No envFrom field")
    | _ ↦ elim source.secret_ref [
      | none ↦ λ o. (panic (error "nil pointer dereference"), o)
      | some name ↦ add_secret_ref c source name
    ]
  ]

  -- The loop of `AddVolumeMount` over the mounts there are, and whether one has the name.
  unfoldable pub replace_mounts : String → Object → List Object → Result (List Object × Bool)
  replace_mounts name u [] = ok ([], false)
  replace_mounts name u (m ∷ ms) =
      let rest = replace_mounts name u ms in
      Base.◌>>=◌ (M.volume_mount.read m) λ mount.
        Base.◌>>=◌ rest
          λ (ms', exist). ok (if mount.name == name then (u ∷ ms', true) else (m ∷ ms', exist))

  -- `AddVolumeMount` from the list of the mounts there are.
  abbrev put_mount : List String → String → Object → Option (List Object) → Edit (Unit {0})
  put_mount path name u none = replace (λ o. set_slice M o (u ∷ []) path)
  put_mount path name u (some ms) = do
    l ← gets (λ _. replace_mounts name u ms)
    replace (λ o. set_slice M o (close_list u l) path)

  unfoldable pub add_volume_mount : MetaContainer → VolumeMount → Edit (Unit {0})
  add_volume_mount c mount = do
    u ← gets (λ _. M.volume_mount.write mount)
    old ← gets (λ o. nested_resources M M.volume_mount o c.volume_mount)
    put_mount c.volume_mount mount.name u old

  -- `AddVolume` from the list of the volumes there are.
  abbrev put_volume : List String → String → Object → Option (List Object) → Edit (Unit {0})
  put_volume path name u none = replace (λ o. set_slice M o (u ∷ []) path)
  put_volume path name u (some ms) =
      replace (λ o. set_slice M o (close_list u (replace_volumes name u ms)) path)

  -- `MetaPodSpec.AddVolume`, with the path of the volumes.
  unfoldable pub add_volume : List String → Volume → Edit (Unit {0})
  add_volume path volume = do
    u ← gets (λ _. M.volume.write volume)
    old ← gets (λ o. nested_resources M M.volume o path)
    put_volume path volume.name u old

  -- The loop of `MountPath`: the value of the first variable that names the root.
  unfoldable pub find_root : List Object → Option String
  find_root [] = none
  find_root (m ∷ ms) =
      let rest = find_root ms in
      elim (M.env_var.read m) [
        | ok e ↦ if e.name == binding_root_env_var then some e.value else rest
        | _ ↦ rest
      ]

  -- `MountPath` from the list of the variables there are.
  abbrev mount_with : List String → String → List Object → Edit String
  mount_with path binding_name old = elim (find_root old) [
    | some root ↦ pure (path_join root binding_name)
    | none ↦ do
      u ← gets (λ _. M.env_var.write root_var)
      replace (λ o. set_slice M o (old ++ (u ∷ [])) path)
      pure (path_join binding_root binding_name)
  ]

  unfoldable pub mount_path : MetaContainer → String → Edit String
  mount_path c binding_name = do
    envs ← gets (λ o. nested_resources M M.env_var o c.env)
    mount_with c.env binding_name (elim envs [ none ↦ [] | some ms ↦ ms ])
