-- ===== src/Apis/Common.antt =====
-- Finalizers of a binding, and the check on its update (apis/common.go).
use service_binding_operator.Base.{
  String, ◌≡◌, refl, arith, eq_refl, any-append, Bool-cases, inl, inr, Bool, true, false, ◌&&◌, not,
  Option, none, some, List, [], ◌∷◌, ◌++◌, Result, ok, err, error, ◌==◌, any, if◌then◌else◌,
}
use service_binding_operator.Base.Dict.{Dict, lookup, insert, lookup-insert}
use service_binding_operator.Apis.Conditions.{Condition, binding_ready_type}

abbrev requester_annotation_key : String
requester_annotation_key = "servicebinding.io/requester"

abbrev pub finalizer_name : String
finalizer_name = "finalizer.servicebinding.openshift.io"

-- The first finalizer of that name taken out, or nothing.
unfoldable pub remove_name : String → List String → Option (List String)
remove_name name [] = none
remove_name name (f ∷ fs) =
    let rest = remove_name name fs in
    if f == name then some fs else elim rest [ none ↦ none | some fs' ↦ some (f ∷ fs') ]

-- The finalizers after the call, and whether it changed them.
unfoldable pub maybe_add_finalizer : List String → List String × Bool
unfolding any
maybe_add_finalizer fs =
    if any (λ f. f == finalizer_name) fs then (fs, false) else (fs ++ (finalizer_name ∷ []), true)

unfoldable pub maybe_remove_finalizer : List String → List String × Bool
unfolding remove_name
maybe_remove_finalizer fs = elim (remove_name finalizer_name fs) [
  | none ↦ (fs, false)
  | some fs' ↦ (fs', true)
]

-- `CanUpdateBinding`, given `meta.IsStatusConditionTrue` and the answer of `reflect.DeepEqual` on
-- the two specs.
unfoldable pub can_update_binding :
    (is_status_condition_true : List Condition → String → Bool)
    → (conditions : List Condition) → (same_spec : Bool) → Result (Unit {0})
can_update_binding is_status_condition_true conditions same_spec =
    if is_status_condition_true conditions binding_ready_type && not same_spec
    then err (
        error
          "cannot update Service Binding if 'Ready' condition is True. If you want to rebind to another service/application, remove this binding and create a new one.")
    else ok tt

-- The user information of a request, with its JSON text (`json.Marshal` and `json.Unmarshal`). The
-- error of `Marshal` is dropped, so its text is what counts.
module _ {UserInfo : Type 0} (marshal : UserInfo → String)
    (unmarshal : String → Option UserInfo) where
  -- On the annotations of the object.
  unfoldable pub set_requester : UserInfo → Dict String → Dict String
  unfolding insert
  set_requester user anns = insert requester_annotation_key (marshal user) anns

  unfoldable pub requester : Dict String → Option UserInfo
  unfolding lookup
  requester anns = elim (lookup requester_annotation_key anns) [
    | none ↦ none
    | some req ↦ unmarshal req
  ]

  -- The requester that was set is the one that is read, where the JSON text of the user is read
  -- again as that user; the other annotations are as before.
  pub requester-set_requester :
      (user : UserInfo) (anns : Dict String) (k : String)
      → unmarshal (marshal user) ≡ some user
      → (requester (set_requester user anns) ≡ some user)
        × (lookup k (set_requester user anns)
            ≡ (if requester_annotation_key == k then some (marshal user) else lookup k anns))
  unfolding requester set_requester
  requester-set_requester user anns k law = (
    rw
        (
          requester,
          lookup-insert requester_annotation_key requester_annotation_key (marshal user) anns,
        )
        law,
    lookup-insert requester_annotation_key k (marshal user) anns,
  )

remove_name-append :
    (name : String) (fs : List String)
    → any (λ f. f == name) fs ≡ false
    → remove_name name (fs ++ (name ∷ [])) ≡ some fs
unfolding remove_name any
remove_name-append name [] h = rw (eq_refl name)
remove_name-append name (f ∷ fs) h = ground (arith, remove_name-append name fs)

-- Where the finalizer is not there, `MaybeAddFinalizer` reports a change, and then
-- `MaybeRemoveFinalizer` reports one and gives the finalizers of before.
pub maybe_remove_finalizer-maybe_add_finalizer :
    (fs : List String)
    → any (λ f. f == finalizer_name) fs ≡ false
    → ((maybe_add_finalizer fs).1 ≡ true)
      × (maybe_remove_finalizer (maybe_add_finalizer fs).0 ≡ (fs, true))
unfolding maybe_add_finalizer maybe_remove_finalizer
maybe_remove_finalizer-maybe_add_finalizer fs h =
    rw h (refl, rw (maybe_remove_finalizer, remove_name-append finalizer_name fs h))

-- A second `MaybeAddFinalizer` reports no change and leaves the finalizers as the first one did.
pub maybe_add_finalizer_again :
    (fs : List String)
    → maybe_add_finalizer (maybe_add_finalizer fs).0 ≡ ((maybe_add_finalizer fs).0, false)
unfolding maybe_add_finalizer
maybe_add_finalizer_again fs = elim (Bool-cases (any (λ f. f == finalizer_name) fs)) [
  | inl there ↦ rw there (rw there)
  | inr absent ↦
      rw absent (rw (any-append (λ f. f == finalizer_name) fs (finalizer_name ∷ []), absent))
]
