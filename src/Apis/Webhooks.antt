-- ===== src/Apis/Webhooks.antt =====
-- The webhooks of bindings (apis/binding/v1alpha1/servicebinding_webhook.go and
-- apis/spec/v1beta1/servicebinding_webhook.go).
pub mod History
use service_binding_operator.Base.{
  String, ◌≡◌, refl, Bool, true, false, not, ◌&&◌, Option, none, some, List, Result, ok, err, error,
  ◌>>=◌, >>=-eq-ok, ◌==◌, if◌then◌else◌,
}
use service_binding_operator.Base.Text.{is_some}
use service_binding_operator.Base.Dict.{Dict}
use service_binding_operator.Apis.Conditions.{Condition, binding_ready_type}
use service_binding_operator.Apis.Common.{can_update_binding}

-- A `LabelSelector` with its `MatchLabels`, which may be nil.
pub record LabelSelector : Type 0 where
  pub match_labels : Option (Dict String)

-- `r.Spec.Application` of v1alpha1 and `r.Spec.Workload` of v1beta1, and the other parts of a
-- binding that the webhooks look at.
pub record Reference : Type 0 where
  pub name : String
  pub label_selector : Option LabelSelector

pub record ServiceBinding (Spec : Type 0) : Type 0 where
  pub spec : Spec
  pub conditions : List Condition

-- `r.LabelSelector != nil && r.LabelSelector.MatchLabels != nil`
abbrev has_labels : Option LabelSelector → Bool
has_labels none = false
has_labels (some s) = is_some s.match_labels

-- `r.Name != "" && r.LabelSelector != nil && r.LabelSelector.MatchLabels != nil`
abbrev pub names_and_selects : Reference → Bool
names_and_selects r = not (r.name == "") && has_labels r.label_selector

-- `checkNameAndSelector`
unfoldable pub check_name_and_selector : Reference → Result (Unit {0})
check_name_and_selector r =
    if names_and_selects r
    then err (error "name and selector MUST NOT be defined in the application reference")
    else ok tt

refused :
    (b : Bool) (message : String)
    → ◌≡◌ {A = Result (Unit {0})} (if b then err (error message) else ok tt) (ok tt)
    → b ≡ false
refused true message h = cc
refused false message h = refl

pub check_name_and_selector-ok :
    (r : Reference) → check_name_and_selector r ≡ ok tt → names_and_selects r ≡ false
unfolding check_name_and_selector
check_name_and_selector-ok r h = refused _ _ h

-- The parts that the two versions of the interface have of their own: the reference in a spec, and
-- `reflect.DeepEqual` on specs.
module _ {Spec : Type 0} (reference_of : Spec → Reference) (deep_equal : Spec → Spec → Bool)
    (is_status_condition_true : List Condition → String → Bool) where
  -- `ValidateCreate`
  abbrev pub validate_create : ServiceBinding Spec → Result (Unit {0})
  validate_create r = check_name_and_selector (reference_of r.spec)

  -- `ValidateUpdate`, where the old object is none if it is no binding of the version.
  unfoldable pub validate_update :
      ServiceBinding Spec → (old : Option (ServiceBinding Spec)) → Result (Unit {0})
  validate_update r none = err (error "Old object is not service binding")
  validate_update r (some old) = do
    _ ← can_update_binding is_status_condition_true r.conditions (deep_equal r.spec old.spec)
    check_name_and_selector (reference_of r.spec)

  -- An update that is admitted replaces a binding by one whose reference does not have both a name
  -- and labels, and whose spec is that of the old binding if the new one is ready.
  pub validate_update_lem :
      (r old : ServiceBinding Spec)
      → validate_update r (some old) ≡ ok tt
      → (names_and_selects (reference_of r.spec) ≡ false)
        × ((is_status_condition_true r.conditions binding_ready_type
              && not (deep_equal r.spec old.spec))
            ≡ false)
  unfolding validate_update can_update_binding
  validate_update_lem r old h =
      let (_, can, checked) =
        >>=-eq-ok
          (can_update_binding is_status_condition_true r.conditions (deep_equal r.spec old.spec))
          (λ _. check_name_and_selector (reference_of r.spec)) h in
      (check_name_and_selector-ok (reference_of r.spec) checked, refused _ _ can)
