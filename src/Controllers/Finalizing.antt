-- ===== src/Controllers/Finalizing.antt =====
-- The calls of the cluster that a reconciliation makes, as properties of the cluster that it
-- keeps.
use service_binding_operator.Base.{
  String, ◌≡◌, refl, ◌∙◌, ◌⊎◌, inl, inr, Bool, true, false, ◌&&◌, not, Option, none, some, List, [],
  ◌∷◌, Error, any, any-append, if◌then◌else◌, ◌==◌, arith, Bool-cases,
}
use service_binding_operator.Apis.Common.{
  finalizer_name, maybe_add_finalizer, maybe_remove_finalizer,
}
use service_binding_operator.Pipeline.Process.{Processed}
use service_binding_operator.Controllers.{
  BindingObject, Cluster, Got, present, not_found, failed, Requeue, reconcile, reconcile_binding,
  run, settle, after_update, answer, is_nil, nothing,
}

abbrev pub has_finalizer : List String → Bool
has_finalizer fs = any (λ f. f == finalizer_name) fs

maybe_add_finalizer-has_finalizer :
    (fs : List String) → has_finalizer (maybe_add_finalizer fs).0 ≡ true
unfolding maybe_add_finalizer
maybe_add_finalizer-has_finalizer fs = elim (Bool-cases (has_finalizer fs)) [
  | inl e ↦ rw e e
  | inr e ↦ rw e (any-append (λ f. f == finalizer_name) fs (finalizer_name ∷ []) ∙ rw e refl)
]

maybe_add_finalizer-kept :
    (fs : List String) → (maybe_add_finalizer fs).1 ≡ false → has_finalizer fs ≡ true
unfolding maybe_add_finalizer
maybe_add_finalizer-kept fs h = ground arith

module _ (B : BindingObject) (C : Cluster B) where
  open B use {Binding, finalizers, set_finalizers, has_deletion_timestamp}
  open C use {State, get, update, process}

  -- A binding that is being deleted, or has the finalizer.
  abbrev pub IsGuarded : Binding → Type 0
  IsGuarded b = (has_deletion_timestamp b ≡ true) ⊎ (has_finalizer (finalizers b) ≡ true)

  -- What is relied on of the objects and of `Update`: the finalizers that are set are those that
  -- are read, and a successful update gives back a binding that is guarded if the given one was.
  pub record IsLawful : Type 0 where
    pub finalizers-set_finalizers :
        (fs : List String) (b : Binding) → finalizers (set_finalizers fs b) ≡ fs
    pub update-IsGuarded :
        (b b' : Binding) (s s' : State) → update b s ≡ (none, b', s') → IsGuarded b → IsGuarded b'

  -- A property of the cluster that the calls keep: a run of the pipeline on a guarded binding, an
  -- update of a guarded binding, and, for a binding that is being deleted and whose run neither
  -- failed nor asks for a retry, any update.
  pub record IsKept (P : State → Type 0) : Type 0 where
    pub process-kept : (b : Binding) (s : State) → IsGuarded b → P s → P (process b s).2
    pub update-kept : (b : Binding) (s : State) → IsGuarded b → P s → P (update b s).2
    pub release-kept :
        (b b' : Binding) (fs : List String) (s s' : State) (p : Processed)
        → process b s ≡ (p, b', s')
        → p.retry ≡ false
        → p.error ≡ none
        → has_deletion_timestamp b' ≡ true
        → P s'
        → P (update (set_finalizers fs b') s').2

  module _ (L : IsLawful) (P : State → Type 0) (K : IsKept P) where
    after_update-kept :
        (r : Option Error × Binding × State)
        (next : Binding → State → (Requeue × Option Error) × State)
        → P r.2
        → ((b' : Binding) (s' : State) → r ≡ (none, b', s') → P s' → P (next b' s').1)
        → P (after_update B C next r).1
    after_update-kept (some e, b', s') next h k = h
    after_update-kept (none, b', s') next h k = k b' s' refl h

    if-kept :
        (b : Bool) (x y : (Requeue × Option Error) × State)
        → (b ≡ true → P x.1)
        → (b ≡ false → P y.1)
        → P (if b then x else y).1
    if-kept true x y h k = h refl
    if-kept false x y h k = k refl

    settle-kept :
        (b b' : Binding) (s s' : State) (p : Processed)
        → process b s ≡ (p, b', s')
        → P s'
        → P (settle B C p b' s').1
    unfolding settle
    settle-kept b b' s s' p eq h =
        if-kept (not p.retry && is_nil p.error && has_deletion_timestamp b') _ _
          (λ c.
            let (done, failed_not, deleted) =
              all_true p.retry p.error (has_deletion_timestamp b') c in
            let (fs, removed) = maybe_remove_finalizer (finalizers b') in
            if-kept removed _ _
              (λ _.
                after_update-kept (update (set_finalizers fs b') s') (λ b'' s''. answer B C p s'')
                  (K.release-kept b b' fs s s' p eq done failed_not deleted h) (λ b'' s'' _ h'. h'))
              (λ _. h))
          (λ _. h)
      where
        all_true :
            (retry : Bool) (e : Option Error) (deleted : Bool)
            → (not retry && is_nil e && deleted) ≡ true
            → (retry ≡ false) × (e ≡ none) × (deleted ≡ true)
        all_true false none true h = (refl, refl, refl)
        all_true false none false h = cc
        all_true false (some e) d h = cc
        all_true true e d h = cc

    run-kept : (b : Binding) (s : State) → IsGuarded b → P s → P (run B C b s).1
    unfolding run
    run-kept b s g h =
        settle-kept b (process b s).1 s (process b s).2 (process b s).0 refl
          (K.process-kept b s g h)

    reconcile_binding-kept : (b : Binding) (s : State) → P s → P (reconcile_binding B C b s).1
    unfolding reconcile_binding
    reconcile_binding-kept b s h =
        let fs = (maybe_add_finalizer (finalizers b)).0 in
        let guarded : IsGuarded (set_finalizers fs b) = inr (
          rw (L.finalizers-set_finalizers fs b)
            (maybe_add_finalizer-has_finalizer (finalizers b))) in
        if-kept (not (has_deletion_timestamp b) && (maybe_add_finalizer (finalizers b)).1) _ _
          (λ _.
            after_update-kept (update (set_finalizers fs b) s) (run B C)
              (K.update-kept (set_finalizers fs b) s guarded h)
              (λ b' s' eq h'.
                run-kept b' s' (L.update-IsGuarded (set_finalizers fs b) b' s s' eq guarded) h'))
          (λ c. run-kept b s (left_alone (has_deletion_timestamp b) refl c) h)
      where
        left_alone :
            (deleted : Bool)
            → has_deletion_timestamp b ≡ deleted
            → (not deleted && (maybe_add_finalizer (finalizers b)).1) ≡ false
            → IsGuarded b
        left_alone true d c = inl d
        left_alone false d c = inr (maybe_add_finalizer-kept (finalizers b) c)

    -- A reconciliation keeps every property of the cluster that is kept by a run of the pipeline
    -- on a binding that is being deleted or has the finalizer, by an update of such a binding,
    -- and by any update of a binding that is being deleted directly after a run on it that
    -- neither failed nor asked for a retry: it calls the cluster in no other way. The finalizers
    -- that are set are taken to be those that are read, and a successful update to give back such
    -- a binding for such a binding.
    pub reconcile-kept : (name : String) (s : State) → P s → P (reconcile B C name s).1
    unfolding reconcile
    reconcile-kept name s h = by_got (get name s)
      where
        by_got :
            (g : Got Binding)
            → P
                (elim g as (λ _. (Requeue × Option Error) × State) [
                  | not_found ↦ ((nothing, none), s)
                  | failed e ↦ ((nothing, some e), s)
                  | present b ↦ reconcile_binding B C b s
                ]).1
        by_got not_found = h
        by_got (failed e) = h
        by_got (present b) = reconcile_binding-kept b s h
