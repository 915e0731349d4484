-- ===== src/Workload/Container/Environment.antt =====
-- Lemmas on the root directory in the environment of a container.
use service_binding_operator.Base.{
  String, ◌≡◌, sym, ◌∙◌, ap, Option, none, some, List, [], ◌∷◌, ◌++◌, Result, ok, ok-injective,
  arith, inl, inr, Option-cases,
}
use service_binding_operator.Base.FilePath.{path_join}
use service_binding_operator.Value.{Object}
use service_binding_operator.Machinery.{Machinery, IsLawful}
use service_binding_operator.Workload.Edit.{
  Edit, pure, replace, ◌>>◌, gets-ok, gets-eq-ok, >>=-eq-ok, replace-eq-ok,
}
use service_binding_operator.Workload.Slices.{nested_resources, set_slice}
use service_binding_operator.Workload.Slices.Readable.{AllRead-append}
use service_binding_operator.Workload.Slices.ReadBack.{nested_resources-set_slice}
use service_binding_operator.Workload.Container.{
  MetaContainer, find_root, mount_with, mount_path, root_var, binding_root,
}
use service_binding_operator.Workload.Container.Upsert.{
  resources, or_nil, resources-eq, found_AllRead,
}

module _ (M : Machinery) where
  -- The root that was appended is found, if none was there.
  find_root-append :
      (ms : List Object) (u : Object)
      → find_root M ms ≡ none
      → M.env_var.read u ≡ ok root_var
      → find_root M (ms ++ (u ∷ [])) ≡ some binding_root
  unfolding find_root
  find_root-append [] u h r = rw (r, find_root)
  find_root-append (m ∷ ms) u h r = ground (arith, find_root-append ms u)

  mount_with-some :
      (path : List String) (name root : String) (ms : List Object) (o : Object)
      → find_root M ms ≡ some root
      → mount_with M path name ms o ≡ (ok (path_join root name), o)
  mount_with-some path name root ms o e = rw (e, mount_with)

  -- Where the environment names a root, `MountPath` only reads.
  mount_path_stable :
      (c : MetaContainer) (name root : String) (o : Object) (envs : Option (List Object))
      → nested_resources M M.env_var o c.env ≡ ok envs
      → find_root M (or_nil envs) ≡ some root
      → mount_path M c name o ≡ (ok (path_join root name), o)
  unfolding mount_path
  mount_path_stable c name root o envs read e =
      gets-ok (λ o. nested_resources M M.env_var o c.env)
        (λ envs. mount_with M c.env name (or_nil envs)) o read
      ∙ mount_with-some c.env name root (or_nil envs) o e

  mount_path_settled :
      (c : MetaContainer) (name root p : String) (o : Object) (envs : Option (List Object))
      → nested_resources M M.env_var o c.env ≡ ok envs
      → find_root M (or_nil envs) ≡ some root
      → p ≡ path_join root name
      → (find_root M (resources M M.env_var o c.env) ≡ some root)
        × (mount_path M c name o ≡ (ok p, o))
  mount_path_settled c name root p o envs read e at_root = (
    rw (resources-eq M M.env_var o c.env envs read) e,
    rw at_root (mount_path_stable c name root o envs read e),
  )

abbrev root_or_default : Option String → String
root_or_default none = binding_root
root_or_default (some root) = root

module _ (M : Machinery) (L : IsLawful M) where
  -- Where `MountPath` succeeds, the path stands under the root that the container's environment
  -- names, or under `/bindings` where it names none, and that root is in the environment
  -- afterwards: a second call gives the same path and leaves the object as the first one left it.
  -- The Kubernetes libraries are taken to be lawful (Machinery.IsLawful).
  pub mount_path_lem :
      (c : MetaContainer) (name : String) (o o' : Object) (p : String)
      → mount_path M c name o ≡ (ok p, o')
      → let root = root_or_default (find_root M (resources M M.env_var o c.env)) in
        (p ≡ path_join root name)
        × (find_root M (resources M M.env_var o' c.env) ≡ some root)
        × (mount_path M c name o' ≡ (ok p, o'))
  unfolding mount_path
  mount_path_lem c name o o' p h =
      let nested = λ (o : Object). nested_resources M M.env_var o c.env in
      let (envs, read, h₁) =
        gets-eq-ok nested (λ envs. mount_with M c.env name (or_nil envs)) o h in
      elim (Option-cases (find_root M (or_nil envs))) [
        | inr (root, e) ↦
            let same = sym (mount_with-some M c.env name root (or_nil envs) o e) ∙ h₁ in
            let at_root = sym (ok-injective (ap (λ (r : Result String × Object). r.0) same)) in
            let kept = ap (λ (r : Result String × Object). r.1) same in
            let (there, again) = mount_path_settled M c name root p o envs read e at_root in
            rw (resources-eq M M.env_var o c.env envs read, e, ← kept) (at_root, there, again)
        | inl e ↦
            let (u, written, h₂) =
              gets-eq-ok (λ _. M.env_var.write root_var) (write_root (or_nil envs)) o
                (rw (e, mount_with) at h₁) in
            let (_, o₁, replaced, last) =
              >>=-eq-ok (replace (λ o. set_slice M o (or_nil envs ++ (u ∷ [])) c.env))
                (λ _. pure (path_join binding_root name)) o h₂ in
            let kept : o₁ ≡ o' = ap (λ (r : Result String × Object). r.1) last in
            let at_root : p ≡ path_join binding_root name =
              sym (ok-injective (ap (λ (r : Result String × Object). r.0) last)) in
            let read_u = (L.env_var-write root_var written).0 in
            let all =
              AllRead-append M.env_var (or_nil envs) (u ∷ [])
                (found_AllRead M M.env_var o c.env envs read) ((root_var, read_u), tt) in
            let read' =
              nested_resources-set_slice M L M.env_var o (or_nil envs ++ (u ∷ [])) c.env o₁
                (replace-eq-ok (λ o. set_slice M o (or_nil envs ++ (u ∷ [])) c.env) o replaced)
                all in
            let (there, again) =
              mount_path_settled M c name binding_root p o₁ (some (or_nil envs ++ (u ∷ []))) read'
                (find_root-append M (or_nil envs) u e read_u) at_root in
            rw (resources-eq M M.env_var o c.env envs read, e, ← kept) (at_root, there, again)
      ]
    where
      write_root : List Object → Object → Edit String
      write_root old u = do
        replace (λ o. set_slice M o (old ++ (u ∷ [])) c.env)
        pure (path_join binding_root name)
