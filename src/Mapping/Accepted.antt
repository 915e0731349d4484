-- ===== src/Mapping/Accepted.antt =====
-- The verdict of the webhook on a mapping, against the use of its templates.
use service_binding_operator.Base.{
  String, ℕ, suc, ◌≡◌, refl, sym, ap, ◌∙◌, Bool, true, false, List, [], ◌∷◌, ◌++◌, Result, ok,
  ◌>>=◌, ◌==◌, is_empty, if◌then◌else◌, Bool-cases, inl, inr, if-true, if-false,
}
use service_binding_operator.Base.Dict.{Dict, insert}
use service_binding_operator.Mapping.{
  Node, field_node, list_node, other_node, Nodes, no_nodes, node, Parser, Parsed, parsed,
  unparsable, root_of, in_braces, ContainerTemplate, Template, WorkloadContainer, WorkloadMapping,
  verify_json_path, verify_nodes, is_valid_restricted_json_path, construct_restricted_path,
  workload_container, workload_containers, from_template,
}
use service_binding_operator.Mapping.Validation.{
  Segment, child, indexed, invalid_value, Mapping, verify_errors, verify_all, restricted_errors,
  validate_restricted_path, path_errors, validate_container, validate_containers, validate_template,
  version_errors, validate_versions, validate,
}

append-eq-nil {ℓ} : {A : Type ℓ} (xs ys : List A) → xs ++ ys ≡ [] → (xs ≡ []) × (ys ≡ [])
append-eq-nil [] ys h = (refl, h)
append-eq-nil (x ∷ xs) ys h = cc

-- A step that succeeds, and what follows on it.
>>=-ok {ℓ κ} :
    {A : Type ℓ} {B : Type κ} (m : Result A) (f : A → Result B)
    → ((a : A) × (m ≡ ok a))
    → ((a : A) → (b : B) × (f a ≡ ok b))
    → (b : B) × ((m >>= f) ≡ ok b)
>>=-ok m f (a, e) next = let (b, h) = next a in (b, ap (λ m. m >>= f) e ∙ h)

mutual
  unfolding verify_errors verify_json_path verify_all verify_nodes

  verify_json_path-verify_errors :
      (n : Node) (path : List Segment)
      → verify_errors n path ≡ []
      → (ps : List String) × (verify_json_path n ≡ ok ps)
  verify_json_path-verify_errors (field_node value) path h = (_, refl)
  verify_json_path-verify_errors (list_node nodes) path h = verify_nodes-verify_all nodes path h
  verify_json_path-verify_errors (other_node type) path h = cc

  verify_nodes-verify_all :
      (ns : Nodes) (path : List Segment)
      → verify_all ns path ≡ []
      → (ps : List String) × (verify_nodes ns ≡ ok ps)
  verify_nodes-verify_all no_nodes path h = (_, refl)
  verify_nodes-verify_all (node n ns) path h =
      let (here, later) = append-eq-nil (verify_errors n path) (verify_all ns path) h in
      >>=-ok (verify_json_path n) _ (verify_json_path-verify_errors n path here) λ nested.
        >>=-ok (verify_nodes ns) _ (verify_nodes-verify_all ns path later)
          λ paths. (nested ++ paths, refl)

is_empty-true {ℓ} : {A : Type ℓ} (xs : List A) → is_empty xs ≡ true → xs ≡ []
is_empty-true [] h = refl
is_empty-true (x ∷ xs) h = cc

module _ (parse : Parser) where
  restricted-validated :
      (field : List Segment) (path : String)
      → restricted_errors parse field path ≡ []
      → (ps : List String) × (is_valid_restricted_json_path parse path ≡ ok ps)
  unfolding restricted_errors is_valid_restricted_json_path
  restricted-validated field path h = by_root (parse (in_braces path)) h
    where
      by_errors :
          (root : Node) (b : Bool)
          → is_empty (verify_errors root field) ≡ b
          → (if b then [] else invalid_value field path "Invalid fixed JSONPath" ∷ []) ≡ []
          → (ps : List String) × (verify_json_path root ≡ ok ps)
      by_errors root true e h =
          verify_json_path-verify_errors root field (is_empty-true (verify_errors root field) e)
      by_errors root false e h = cc

      by_root :
          (r : Parsed)
          → (elim r [
            | parsed root ↦
                if is_empty (verify_errors root field)
                then []
                else invalid_value field path "Invalid fixed JSONPath" ∷ []
            | unparsable _ ↦ invalid_value field path "Unable to parse fixed JSONPath" ∷ []
          ])
            ≡ []
          → (ps : List String) × ((root_of r >>= verify_json_path) ≡ ok ps)
      by_root (parsed root) h = by_errors root (is_empty (verify_errors root field)) refl h
      by_root (unparsable e) h = cc

  construct-validated :
      (field : List Segment) (value : String) (default : List String)
      → validate_restricted_path parse field value ≡ []
      → (ps : List String) × (construct_restricted_path parse value default ≡ ok ps)
  unfolding validate_restricted_path construct_restricted_path
  construct-validated field value default h = elim (Bool-cases (value == "")) [
    | inl e ↦ (default, if-true _ e)
    | inr e ↦
        let (ps, ok_ps) = restricted-validated field value (sym (if-false _ e) ∙ h) in
        (ps, if-false _ e ∙ ok_ps)
  ]

  path-validated :
      (field : List Segment) (path : String)
      → path_errors parse field path ≡ []
      → (root : Node) × (root_of (parse (in_braces path)) ≡ ok root)
  unfolding path_errors
  path-validated field path h = elim (Bool-cases (path == "")) [
    | inl e ↦ absurd (cons_ne_nil (sym (if-true _ e) ∙ h))
    | inr e ↦ by_root (parse (in_braces path)) (sym (if-false _ e) ∙ h)
  ]
    where
      cons_ne_nil : {A : Type 0} {x : A} {xs : List A} → x ∷ xs ≡ [] → ⊥
      cons_ne_nil h = cc

      by_root :
          (r : Parsed)
          → (elim r [
            | parsed root ↦ []
            | unparsable _ ↦ invalid_value field path "Invalid JSONPath" ∷ []
          ])
            ≡ []
          → (root : Node) × (root_of r ≡ ok root)
      by_root (parsed root) h = (root, refl)
      by_root (unparsable e) h = cc

  container-validated :
      (path : List Segment) (c : ContainerTemplate)
      → validate_container parse path c ≡ []
      → (wc : WorkloadContainer) × (workload_container parse c ≡ ok wc)
  unfolding validate_container workload_container
  container-validated path c h =
      let at = λ (name : String). path ++ (child name ∷ []) in
      let (no_name, h₁) = append-eq-nil (validate_restricted_path parse (at "name") c.name) _ h in
      let (no_env, h₂) = append-eq-nil (validate_restricted_path parse (at "env") c.env) _ h₁ in
      let (no_mounts, no_path) =
        append-eq-nil (validate_restricted_path parse (at "volumeMounts") c.volume_mounts) _ h₂ in
      >>=-ok (construct_restricted_path parse c.name ("name" ∷ [])) _
        (construct-validated (at "name") c.name ("name" ∷ []) no_name)
        λ name.
          >>=-ok (construct_restricted_path parse c.env ("env" ∷ [])) _
            (construct-validated (at "env") c.env ("env" ∷ []) no_env)
            λ env.
              >>=-ok (construct_restricted_path parse c.volume_mounts ("volumeMounts" ∷ [])) _
                (construct-validated (at "volumeMounts") c.volume_mounts ("volumeMounts" ∷ [])
                  no_mounts)
                λ mounts.
                  >>=-ok (root_of (parse (in_braces c.path))) _
                    (path-validated (at "path") c.path no_path) λ root. (_, refl)

  containers-validated :
      (path : List Segment) (i : ℕ) (cs : List ContainerTemplate)
      → validate_containers parse path i cs ≡ []
      → (wcs : List WorkloadContainer) × (workload_containers parse cs ≡ ok wcs)
  unfolding validate_containers workload_containers
  containers-validated path i [] h = ([], refl)
  containers-validated path i (c ∷ cs) h =
      let (here, later) =
        append-eq-nil (validate_container parse (path ++ (indexed "containers" i ∷ [])) c) _ h in
      >>=-ok (workload_container parse c) _
        (container-validated (path ++ (indexed "containers" i ∷ [])) c here)
        λ wc.
          >>=-ok (workload_containers parse cs) _ (containers-validated path (suc i) cs later)
            λ rest. (wc ∷ rest, refl)

  template-validated :
      (path : List Segment) (t : Template)
      → validate_template parse path t ≡ []
      → (w : WorkloadMapping) × (from_template parse t ≡ ok w)
  unfolding validate_template from_template
  template-validated path t h =
      let (here, later) = append-eq-nil (validate_containers parse path 0 t.containers) _ h in
      let (no_volumes, _) =
        append-eq-nil (validate_restricted_path parse (path ++ (child "volumes" ∷ [])) t.volumes) _
          later in
      let default = "spec" ∷ "template" ∷ "spec" ∷ "volumes" ∷ [] in
      >>=-ok (workload_containers parse t.containers) _
        (containers-validated path 0 t.containers here)
        λ wcs.
          >>=-ok (construct_restricted_path parse t.volumes default) _
            (construct-validated (path ++ (child "volumes" ∷ [])) t.volumes default no_volumes)
            λ volume. (_, refl)

  -- Every template of the list gives a workload mapping.
  abbrev pub AllUsable : List Template → Type 0
  AllUsable [] = Unit {0}
  AllUsable (t ∷ ts) = ((w : WorkloadMapping) × (from_template parse t ≡ ok w)) × AllUsable ts

  versions-validated :
      (i : ℕ) (seen : Dict ℕ) (ts : List Template)
      → validate_versions parse i seen ts ≡ []
      → AllUsable ts
  unfolding validate_versions
  versions-validated i seen [] h = tt
  versions-validated i seen (t ∷ ts) h =
      let path = child "spec" ∷ indexed "versions" i ∷ [] in
      let (_, h₁) = append-eq-nil (version_errors parse path t.version seen) _ h in
      let (here, later) = append-eq-nil (validate_template parse path t) _ h₁ in
      (
        template-validated path t here,
        versions-validated (suc i) (insert t.version i seen) ts later,
      )

  -- Where the webhook finds no error in a mapping of workload resources, each of its templates is
  -- one that `FromWorkloadResourceMappingTemplate` makes a workload mapping of, without an error.
  pub from_template-validate : (m : Mapping) → validate parse m ≡ [] → AllUsable m.versions
  unfolding validate
  from_template-validate m h = versions-validated 0 [] m.versions h
