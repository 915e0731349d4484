-- ===== src/Tests/ControllerTests.antt =====
-- A reconciliation on a cluster of one binding, whose state says whether every run of the pipeline
-- so far was on a binding that is being deleted or has the finalizer.
use service_binding_operator.Base.{
  String, ◌≡◌, refl, ap, subst, Bool, true, false, ◌&&◌, not, ◌==◌, ◌||◌, Option, none, some, any,
  List, [], ◌∷◌, Error, inl, inr,
}
use service_binding_operator.Apis.Conditions.{
  Condition, ConditionStatus, condition_true, binding_ready, conditions,
}
use service_binding_operator.Apis.Common.{can_update_binding}
use service_binding_operator.Apis.Webhooks.{
  Reference, ServiceBinding, names_and_selects, check_name_and_selector, validate_update,
}
use service_binding_operator.Apis.Webhooks.History.{
  Reached, created, updated, reported, here, ready_updated, Reached-WhileReady,
}
use service_binding_operator.Pipeline.Process.{Processed}
use service_binding_operator.Controllers.{BindingObject, Cluster, present, reconcile}
use service_binding_operator.Controllers.Finalizing.{
  has_finalizer, IsGuarded, IsLawful, IsKept, reconcile-kept,
}

-- A binding is its finalizers, and whether it is being deleted.
abbrev object : BindingObject
object = record {
  Binding = List String × Bool;
  finalizers = λ b. b.0;
  set_finalizers = λ fs b. (fs, b.1);
  has_deletion_timestamp = λ b. b.1;
}

abbrev done : Processed
done = record { retry = false; delay = 0; error = none }

abbrev cluster : Cluster object
cluster = record {
  State = Bool;
  get = λ name s. present (name ∷ [], false);
  update = λ b s. (none, b, s);
  process = λ b s. (done, b, s && (b.1 || has_finalizer b.0));
}

IsGuarded-test :
    (b : List String × Bool) → IsGuarded object cluster b → (b.1 || has_finalizer b.0) ≡ true
IsGuarded-test (fs, true) g = refl
IsGuarded-test (fs, false) (inl g) = cc
IsGuarded-test (fs, false) (inr g) = g

cluster-IsLawful : IsLawful object cluster
cluster-IsLawful = record {
  finalizers-set_finalizers = λ fs b. refl;
  update-IsGuarded = λ b b' s s' h g. subst (IsGuarded object cluster) (same b b' s s' h) g;
}
  where
    same : (b b' : List String × Bool) (s s' : Bool) → cluster.update b s ≡ (none, b', s') → b ≡ b'
    same b b' s s' h = ap (λ (r : Option Error × (List String × Bool) × Bool). r.1) h

cluster-IsKept : IsKept object cluster (λ s. s ≡ true)
cluster-IsKept = record {
  process-kept = λ b s g h. rw (h, IsGuarded-test b g) refl;
  update-kept = λ b s g h. h;
  release-kept = λ b b' fs s s' p eq done failed_not deleted h. h;
}

reconcile-kept_example : (reconcile object cluster "other" true).1 ≡ true
reconcile-kept_example =
    reconcile-kept object cluster cluster-IsLawful (λ s. s ≡ true) cluster-IsKept "other" true refl

-- A spec refers to its workloads by labels, or to one by its name.
abbrev reference_of : (by_labels : Bool) → Reference
reference_of true = record { name = ""; label_selector = some (record { match_labels = some [] }) }
reference_of false = record { name = "web"; label_selector = none }

abbrev same_spec : Bool → Bool → Bool
same_spec true b = b
same_spec false b = not b

same_spec-≡ : (a b : Bool) → same_spec a b ≡ true → a ≡ b
same_spec-≡ true true h = refl
same_spec-≡ true false h = cc
same_spec-≡ false true h = cc
same_spec-≡ false false h = refl

abbrev is_true : ConditionStatus → Bool
is_true condition_true = true
is_true _ = false

abbrev has_true : List Condition → String → Bool
has_true cs type = any (λ (c : Condition). c.condition_type == type && is_true c.status) cs

abbrev with_conditions : (by_labels : Bool) → List Condition → ServiceBinding Bool
with_conditions by_labels cs = record { spec = by_labels; conditions = cs }

-- A binding that was created with a name, updated to have labels, and reported to be ready.
labels_reached :
    Reached reference_of same_spec has_true (with_conditions true (binding_ready conditions ∷ []))
unfolding validate_update check_name_and_selector can_update_binding any
labels_reached =
    reported {old = with_conditions true []}
      (updated {old = with_conditions false []} {r = with_conditions true []} (created refl) refl)
      refl

-- It is updated again with the condition that it is ready.
Reached-WhileReady_example :
    (true ≡ true)
    × (names_and_selects (reference_of true) ≡ false)
    × (names_and_selects (reference_of true) ≡ false)
unfolding validate_update check_name_and_selector can_update_binding any
Reached-WhileReady_example =
    Reached-WhileReady reference_of same_spec has_true same_spec-≡
      {r = with_conditions true (binding_ready conditions ∷ [])}
      {t = with_conditions true (binding_ready conditions ∷ [])} labels_reached
      (ready_updated here refl refl)
