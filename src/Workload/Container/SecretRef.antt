-- ===== src/Workload/Container/SecretRef.antt =====
-- Lemmas on the reference to the binding secret in a container's `envFrom`.
use service_binding_operator.Base.{
  String, ◌≡◌, ◌≢◌, refl, sym, ◌∙◌, ap, subst, Bool, true, false, Option, none, some, List, [], ◌∷◌,
  ◌++◌, Result, ok, err, panic, arith, any, eq_refl, ◌==◌,
}
use service_binding_operator.Value.{Object}
use service_binding_operator.Machinery.{Machinery, IsLawful, Codec, EnvFromSource, ReportsText}
use service_binding_operator.Workload.Edit.{
  Edit, gets, ignore_error, ◌>>=◌, gets-ok, gets-err, gets-panic, gets-eq-ok, >>=-eq-ok,
  replace-eq-ok,
}
use service_binding_operator.Workload.Slices.{nested_resources, set_slice}
use service_binding_operator.Workload.Container.{
  MetaContainer, remove_where, remove_found, remove_first, has_text, remove_env_from_vars, add_raw,
  append_to, add_secret_ref, add_env_from_var,
}
use service_binding_operator.Workload.Container.Upsert.{
  resources, or_nil, resources-eq, found_AllRead,
}
use service_binding_operator.Workload.Container.Removing.{remove_where-append}

remove_first-eq-none :
    (p : Object → Bool) (ms : List Object) → any p ms ≡ false → remove_first p ms ≡ none
unfolding remove_first any
remove_first-eq-none p [] h = refl
remove_first-eq-none p (m ∷ ms) h = ground (arith, remove_first-eq-none p ms)

ignore_error-object : (m : Edit (Unit {0})) (o : Object) → (ignore_error m o).1 ≡ (m o).1
ignore_error-object m o = ground arith

module _ (M : Machinery) where
  -- A removal with nothing to take out leaves the object alone, also where it fails.
  remove_where_absent :
      {A : Type 0} (c : Codec A) (path : List String) (p : Object → Bool) (o : Object)
      → any p (resources M c o path) ≡ false
      → (remove_where M c path p o).1 ≡ o
  unfolding remove_where
  remove_where_absent c path p o fresh = by_read (nested_resources M c o path) refl
    where
      nested : Object → Result (Option (List Object))
      nested o = nested_resources M c o path

      left : Result (Unit {0}) × Object → Object
      left (r, o) = o

      by_read :
          (r : Result (Option (List Object))) → nested o ≡ r → (remove_where M c path p o).1 ≡ o
      by_read (ok none) e = ap left (gets-ok nested (remove_found M path p) o e)
      by_read (ok (some ms)) e =
          let stays : remove_found M path p (some ms) o ≡ (ok tt, o) = rw (
            remove_first-eq-none p ms (rw (resources-eq M c o path (some ms) e) at fresh),
            remove_found,
          ) in
          ap left (gets-ok nested (remove_found M path p) o e ∙ stays)
      by_read (err x) e = ap left (gets-err nested (remove_found M path p) o e)
      by_read (panic x) e = ap left (gets-panic nested (remove_found M path p) o e)

  add_env_from_var-eq-ok :
      (c : MetaContainer) (source : EnvFromSource) (secret : String) (o o' : Object)
      → source.secret_ref ≡ some secret
      → add_env_from_var M c source o ≡ (ok tt, o')
      → (c.env_from ≢ []) × (add_secret_ref M c source secret o ≡ (ok tt, o'))
  unfolding add_env_from_var
  add_env_from_var-eq-ok c source secret o o' ref h = ground arith

  append_to-eq-ok :
      (ms : List Object) (path : List String) (old : Option (List Object)) (o o' : Object)
      → append_to M ms path old o ≡ (ok tt, o')
      → set_slice M o (or_nil old ++ ms) path ≡ ok o'
  append_to-eq-ok ms path none o o' h = replace-eq-ok (λ o. set_slice M o ms path) o h
  append_to-eq-ok ms path (some old) o o' h =
      replace-eq-ok (λ o. set_slice M o (old ++ ms) path) o h

module _ (M : Machinery) (L : IsLawful M) where
  has_text-write :
      (source : EnvFromSource) (secret : String) (u : Object)
      → source.secret_ref ≡ some secret
      → (secret == "") ≡ false
      → M.env_from.write source ≡ ok u
      → has_text M ("secretRef" ∷ "name" ∷ []) secret u ≡ true
  unfolding has_text
  has_text-write source secret u ref named written =
      let at_name = (L.env_from-write source ref named written).1 in
      rw
        (
          subst (λ w. ReportsText w (M.nested_string u ("secretRef" ∷ "name" ∷ []))) at_name
              (L.nested_string-walk u ("secretRef" ∷ "name" ∷ [])),
          has_text,
        )
        (eq_refl secret)

  -- Where `AddEnvFromVar` succeeds with a reference to a secret whose name is not empty and that no
  -- source of the container refers to, `RemoveEnvFromVars` of that secret succeeds and the sources are those of before.
  -- The Kubernetes libraries are taken to be lawful (Machinery.IsLawful).
  pub remove_env_from_vars-add_env_from_var :
      (c : MetaContainer) (source : EnvFromSource) (secret : String) (o o' : Object)
      → source.secret_ref ≡ some secret
      → (secret == "") ≡ false
      → any (has_text M ("secretRef" ∷ "name" ∷ []) secret) (resources M M.env_from o c.env_from)
        ≡ false
      → add_env_from_var M c source o ≡ (ok tt, o')
      → (o'' : Object) × (remove_env_from_vars M c secret o' ≡ (ok tt, o''))
        × (resources M M.env_from o'' c.env_from ≡ resources M M.env_from o c.env_from)
  unfolding remove_env_from_vars add_raw
  remove_env_from_vars-add_env_from_var c source secret o o' ref named fresh h =
      let path = c.env_from in
      let p = has_text M ("secretRef" ∷ "name" ∷ []) secret in
      let remove = remove_env_from_vars M c secret in
      let add = λ (u : Object). add_raw M M.env_from (u ∷ []) path in
      let nested = λ (o : Object). nested_resources M M.env_from o path in
      let (longer, h₁) = add_env_from_var-eq-ok M c source secret o o' ref h in
      let (_, o₁, removed, h₂) =
        >>=-eq-ok (ignore_error remove) (λ _. gets (λ _. M.env_from.write source) >>= add) o h₁ in
      let kept : o₁ ≡ o =
        sym (ap (λ (r : Result (Unit {0}) × Object). r.1) removed)
        ∙ ignore_error-object remove o
        ∙ remove_where_absent M M.env_from path p o fresh in
      let (u, written, h₃) = gets-eq-ok (λ _. M.env_from.write source) add o₁ h₂ in
      let (old, read, h₄) = gets-eq-ok nested (append_to M (u ∷ []) path) o₁ h₃ in
      let there = resources-eq M M.env_from o₁ path old read in
      let same : resources M M.env_from o path ≡ or_nil old = rw (← kept) there in
      let (o'', cut, left) =
        remove_where-append M L M.env_from path p o₁ o' (or_nil old) u longer (rw same at fresh)
          (has_text-write source secret u ref named written)
          (found_AllRead M M.env_from o₁ path old read)
          (source, (L.env_from-write source ref named written).0)
          (append_to-eq-ok M (u ∷ []) path old o₁ o' h₄) in
      (o'', cut, left ∙ sym same)
