-- ===== src/Context/Templates/Chosen.antt =====
-- Which template is chosen for a version, and how many containers its mapping has.
use service_binding_operator.Base.{
  String, suc, ◌+◌, ◌≤◌, ◌≡◌, refl, sym, ap, ◌∙◌, inl, inr, Bool, true, false, Bool-cases, if-false,
  Option, none, some, Error, List, [], ◌∷◌, ◌++◌, arith, Result, ok, err, >>=-eq-ok, ◌>>=◌,
  ok-injective, ◌==◌, is_empty, length, any, if◌then◌else◌,
}
use service_binding_operator.Value.{Object}
use service_binding_operator.Mapping.{
  Parser, Template, ContainerTemplate, WorkloadContainer, WorkloadMapping, workload_container,
  workload_containers, construct_restricted_path, from_template,
}
use service_binding_operator.Mapping.Validation.{GroupVersionResource, Mapping}
use service_binding_operator.Context.{Meta}
use service_binding_operator.Context.Client.{Client, UserInfo, can_perform}
use service_binding_operator.Context.Templates.{
  default_template, default_containers, choose, with_containers, add_container, template_for,
  mapping_versions, workload_resource_template, group_resource, mapping_resource,
}

module _ {A : Type 0} where
  unfoldable pub find_first : (A → Bool) → List A → Option A
  find_first p [] = none
  find_first p (x ∷ xs) = let rest = find_first p xs in if p x then some x else rest

  abbrev or_else : Option A → Option A → Option A
  or_else none y = y
  or_else (some x) y = some x

  unfoldable pub find_last : (A → Bool) → List A → Option A
  find_last p [] = none
  find_last p (x ∷ xs) = or_else (find_last p xs) (if p x then some x else none)

  abbrev pub or_default : Option A → A → A
  or_default none d = d
  or_default (some x) d = x

  or_else-or_default :
      (x y : Option A) (d : A) → or_default (or_else x y) d ≡ or_default x (or_default y d)
  or_else-or_default none y d = refl
  or_else-or_default (some x) y d = refl

  if-or_default :
      (b : Bool) (x d : A) → or_default (if b then some x else none) d ≡ (if b then x else d)
  if-or_default true x d = refl
  if-or_default false x d = refl

-- The template that is chosen is the first one of that version, or else the last one for any
-- version, or else the one that was given.
pub choose_lem :
    (version : String) (given : Template) (ts : List Template)
    → choose version given ts ≡ (
        or_default
          (find_first (λ t. t.version == version) ts)
          (or_default (find_last (λ t. t.version == "*") ts) given))
unfolding choose find_first find_last
choose_lem version given [] = refl
choose_lem version given (t ∷ ts) = elim (Bool-cases (t.version == version)) [
  | inl e ↦ rw e refl
  | inr e ↦
      let wildcard = t.version == "*" in
      let first = find_first (λ t. t.version == version) ts in
      let last = find_last (λ t. t.version == "*") ts in
      if-false t e
      ∙ choose_lem version (if wildcard then t else given) ts
      ∙ sym (
          ap
            (λ (o : Option Template).
              or_default o (or_default (or_else last (if wildcard then some t else none)) given))
            (if-false (some t) e)
          ∙ ap (or_default first) (
              or_else-or_default last (if wildcard then some t else none) given
              ∙ ap (or_default last) (if-or_default wildcard t given)))
]

module _ (parse : Parser) where
  workload_containers-length :
      (cs : List ContainerTemplate) {ws : List WorkloadContainer}
      → workload_containers parse cs ≡ ok ws
      → length ws ≡ length cs
  unfolding workload_containers
  workload_containers-length [] h = ap length (sym (ok-injective h))
  workload_containers-length (c ∷ cs) h =
      let (w, _, h₁) = >>=-eq-ok (workload_container parse c) _ h in
      let (rest, e, h₂) = >>=-eq-ok (workload_containers parse cs) _ h₁ in
      ap length (sym (ok-injective h₂)) ∙ ap suc (workload_containers-length cs e)

  from_template-length :
      (t : Template) {m : WorkloadMapping}
      → from_template parse t ≡ ok m
      → length m.containers ≡ length t.containers
  unfolding from_template
  from_template-length t h =
      let (ws, e, h₁) = >>=-eq-ok (workload_containers parse t.containers) _ h in
      let (v, _, h₂) = >>=-eq-ok (construct_restricted_path parse t.volumes _) _ h₁ in
      ap (λ (m : WorkloadMapping). length m.containers) (sym (ok-injective h₂))
      ∙ workload_containers-length t.containers e

length-append : {A : Type 0} (xs ys : List A) → length (xs ++ ys) ≡ length xs + length ys
length-append [] ys = omega arith
length-append (x ∷ xs) ys = ap suc (length-append xs ys) ∙ omega arith

with_containers-length : (t : Template) → 1 ≤ length (with_containers t).containers
with_containers-length t = by_list t t.containers refl
  where
    by_list :
        (t : Template) (cs : List ContainerTemplate)
        → t.containers ≡ cs
        → 1
          ≤ length
              (if is_empty cs then record t { containers = default_containers } else t).containers
    by_list t [] e = omega arith
    by_list t (c ∷ cs) e = rw e (omega arith)

add_container-length :
    (path : String) (t : Template)
    → (length t.containers ≤ length (add_container path t).containers)
      × (length (add_container path t).containers ≤ length t.containers + 1)
unfolding add_container
add_container-length path t = by_tests t (path == "") (any _ t.containers) _
  where
    by_tests :
        (t : Template) (a b : Bool) (c : ContainerTemplate)
        → (length t.containers
            ≤ length
                (if a
                  then t
                  else if b
                  then record t { containers = t.containers ++ (c ∷ []) }
                  else t).containers)
          × (length
                (if a
                  then t
                  else if b
                  then record t { containers = t.containers ++ (c ∷ []) }
                  else t).containers
              ≤ length t.containers + 1)
    by_tests t true b c = (omega arith, omega arith)
    by_tests t false true c = (
      omega (arith, length-append t.containers (c ∷ [])),
      omega (arith, length-append t.containers (c ∷ [])),
    )
    by_tests t false false c = (omega arith, omega arith)

-- Where `WorkloadResourceTemplate` makes a workload mapping, and has none given to it, the mapping
-- has at least one container.
pub workload_resource_template-containers :
    (C : Client) (parse : Parser) (unmarshal : String → Result Mapping)
    (from_unstructured : Object → Result Mapping) (user : Option UserInfo) (m : Meta)
    (gvr : GroupVersionResource) (container_path : String) (w : C.World) {wm : WorkloadMapping}
    → workload_resource_template C parse unmarshal from_unstructured user m none gvr container_path
        w
      ≡ ok wm
    → 1 ≤ length wm.containers
unfolding workload_resource_template template_for
workload_resource_template-containers C parse unmarshal from_unstructured user m gvr path w {wm} h =
    by_test (can_perform C user mapping_resource (group_resource gvr) "" "get" w) _ h
  where
    versions : Result (List Template)
    versions = mapping_versions C parse unmarshal from_unstructured m gvr w

    by_test :
        (b : Bool) (e : Error)
        → (if b
            then (versions >>= λ vs. from_template parse (template_for gvr.version path vs))
            else err e)
          ≡ ok wm
        → 1 ≤ length wm.containers
    by_test false e h = cc
    by_test true e h =
        let (vs, _, h₁) = >>=-eq-ok versions _ h in
        let chosen = with_containers (choose gvr.version default_template vs) in
        omega (
          arith,
          from_template-length parse (add_container path chosen) h₁,
          with_containers-length (choose gvr.version default_template vs),
          add_container-length path chosen,
        )
