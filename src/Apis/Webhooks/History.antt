-- ===== src/Apis/Webhooks/History.antt =====
-- The bindings that the webhooks let into the cluster (apis/binding/v1alpha1/servicebinding_webhook.go
-- and apis/spec/v1beta1/servicebinding_webhook.go), as steps: the API server asks them before a
-- binding is created or updated, and not where only the status is written.
use service_binding_operator.Base.{
  String, ◌≡◌, refl, ap, ◌∙◌, Bool, true, false, not, ◌&&◌, some, List, ok,
}
use service_binding_operator.Apis.Conditions.{Condition, binding_ready_type}
use service_binding_operator.Apis.Webhooks.{
  Reference, ServiceBinding, names_and_selects, check_name_and_selector-ok, validate_create,
  validate_update, validate_update_lem,
}

module _ {Spec : Type 0} (reference_of : Spec → Reference) (deep_equal : Spec → Spec → Bool)
    (is_status_condition_true : List Condition → String → Bool) where
  -- A binding as the cluster may hold it.
  pub data Reached : ServiceBinding Spec → Type 0 where
    created :
        {r : ServiceBinding Spec}
        → validate_create reference_of deep_equal is_status_condition_true r ≡ ok tt
        → Reached r
    updated :
        {old r : ServiceBinding Spec}
        → Reached old
        → validate_update reference_of deep_equal is_status_condition_true r (some old) ≡ ok tt
        → Reached r
    reported : {old r : ServiceBinding Spec} → Reached old → r.spec ≡ old.spec → Reached r

  -- How a binding may go on from another while it is ready: every update of it carries the condition
  -- that it is.
  pub data WhileReady (r : ServiceBinding Spec) : ServiceBinding Spec → Type 0 where
    here : WhileReady r r
    ready_updated :
        {s t : ServiceBinding Spec}
        → WhileReady r s
        → is_status_condition_true t.conditions binding_ready_type ≡ true
        → validate_update reference_of deep_equal is_status_condition_true t (some s) ≡ ok tt
        → WhileReady r t
    ready_reported : {s t : ServiceBinding Spec} → WhileReady r s → t.spec ≡ s.spec → WhileReady r t

  Reached-allowed :
      {r : ServiceBinding Spec} → Reached r → names_and_selects (reference_of r.spec) ≡ false
  Reached-allowed {r} (created h) = check_name_and_selector-ok (reference_of r.spec) h
  Reached-allowed {r} (updated {old} before h) =
      (validate_update_lem reference_of deep_equal is_status_condition_true r old h).0
  Reached-allowed (reported before same) =
      ap (λ s. names_and_selects (reference_of s)) same ∙ Reached-allowed before

  equal-of_ready : (a b : Bool) → a ≡ true → (a && not b) ≡ false → b ≡ true
  equal-of_ready a true h k = refl
  equal-of_ready true false h k = cc
  equal-of_ready false false h k = cc

  module _ (deep_equal-≡ : (a b : Spec) → deep_equal a b ≡ true → a ≡ b) where
    WhileReady-spec : {r t : ServiceBinding Spec} → WhileReady r t → t.spec ≡ r.spec
    WhileReady-spec here = refl
    WhileReady-spec {r} {t} (ready_updated {s} before is_ready h) =
        deep_equal-≡ t.spec s.spec (
          equal-of_ready (is_status_condition_true t.conditions binding_ready_type)
            (deep_equal t.spec s.spec) is_ready
            (validate_update_lem reference_of deep_equal is_status_condition_true t s h).1)
        ∙ WhileReady-spec before
    WhileReady-spec (ready_reported before same) = same ∙ WhileReady-spec before

    -- Whatever creations, updates and reports of status came before, a binding that the webhooks
    -- let into the cluster does not have both a name and labels in its reference; and from then on,
    -- as long as its updates carry the condition that it is ready, whatever reports of status come
    -- between, its spec stays as it is, and so does that. Specs that `reflect.DeepEqual` takes to be
    -- equal are assumed to be the same.
    pub Reached-WhileReady :
        {r t : ServiceBinding Spec}
        → Reached r
        → WhileReady r t
        → (t.spec ≡ r.spec)
          × (names_and_selects (reference_of r.spec) ≡ false)
          × (names_and_selects (reference_of t.spec) ≡ false)
    Reached-WhileReady before after =
        let same = WhileReady-spec after in
        let allowed = Reached-allowed before in
        (same, allowed, ap (λ s. names_and_selects (reference_of s)) same ∙ allowed)
