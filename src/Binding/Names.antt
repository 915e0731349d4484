-- ===== src/Binding/Names.antt =====
-- The names of the annotations that `IsServiceBindingAnnotation` accepts.
use service_binding_operator.Base.{
  String, ◌<>◌, ◌≡◌, refl, ap, ◌⊎◌, ◌↔◌, inl, inr, true, false, none, ok, ◌==◌, eq_iff, arith,
  Bool-cases, Option-cases,
}
use service_binding_operator.Base.Text.{
  has_prefix, strip_prefix, strip_prefix-append, strip_prefix-eq-some, strip_prefix-longer,
}
use service_binding_operator.Binding.Annotation.{
  annotation_prefix, provisioned_service_annotation_key, is_service_binding_annotation,
}

abbrev pub IsBindingName : String → Type 0
IsBindingName key = (key ≡ "service.binding") ⊎ ((s : String) × (key ≡ "service.binding/" <> s))

has_prefix-append : (p s : String) → has_prefix (p <> s) p ≡ true
unfolding has_prefix
has_prefix-append p s = rw (strip_prefix-append p s)

whole_name : is_service_binding_annotation "service.binding" ≡ ok true
unfolding is_service_binding_annotation
whole_name = refl

other_name :
    (q s : String)
    → strip_prefix "service.binding/" q ≡ none
    → ("service.binding/" <> s == q) ≡ false
other_name q s h = elim (Bool-cases ("service.binding/" <> s == q)) [
  | inr e ↦ e
  | inl e ↦ cc (
    strip_prefix-append "service.binding/" s,
    h,
    ap (strip_prefix "service.binding/") ((eq_iff ("service.binding/" <> s) q).0 e),
  )
]

behind_slash : (s : String) → is_service_binding_annotation ("service.binding/" <> s) ≡ ok true
unfolding is_service_binding_annotation strip_prefix
behind_slash s =
    rw
      (
        other_name provisioned_service_annotation_key s refl,
        other_name annotation_prefix s refl,
        begins,
        has_prefix-append "service.binding/" s,
      )
      refl
  where
    begins : has_prefix ("service.binding/" <> s) "service.binding" ≡ true
    begins = strip_prefix-longer "service.binding" "/" s

named : (key : String) → is_service_binding_annotation key ≡ ok true → IsBindingName key
unfolding is_service_binding_annotation
named key h = elim (Bool-cases (key == annotation_prefix)) [
  | inl e ↦ inl (ground (arith, e, eq_iff key annotation_prefix))
  | inr e ↦ elim (Option-cases (strip_prefix "service.binding/" key)) [
    | inr (s, e') ↦ inr (s, strip_prefix-eq-some "service.binding/" key e')
    | inl e' ↦ absurd (ground (arith, h, e, e'))
  ]
]

-- A name is accepted exactly where it is `service.binding` or begins with `service.binding/`.
pub is_service_binding_annotation_lem :
    (key : String) → (is_service_binding_annotation key ≡ ok true) ↔ IsBindingName key
is_service_binding_annotation_lem key = (named key, accepted)
  where
    accepted : IsBindingName key → is_service_binding_annotation key ≡ ok true
    accepted (inl e) = rw e whole_name
    accepted (inr (s, e)) = rw e (behind_slash s)
