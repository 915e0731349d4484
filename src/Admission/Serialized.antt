-- ===== src/Admission/Serialized.antt =====
-- Which bindings a changed mapping is written to (`Serialize` of apis/webhooks/validator.go).
use service_binding_operator.Base.{
  String, ◌≡◌, refl, ◌∙◌, Bool, true, false, Option, none, some, List, [], ◌∷◌, Error, Result, ok,
  err, panic, if◌then◌else◌,
}
use service_binding_operator.Value.{Object}
use service_binding_operator.Mapping.Validation.{Mapping, GroupVersionResource, accepts_gvr}
use service_binding_operator.Context.Lookup.{RestMapper}
use service_binding_operator.Context.Client.{
  Client, Fetched, fetched, absent, failed, fetched_or_error,
}
use service_binding_operator.Admission.{
  Codecs, after_update, with_mapping, spec_workload, operator_workload, annotate_each, annotate_all,
  serialize, spec_bindings, operator_bindings,
}

-- The workload of a binding, as far as it is found, is one that the mapping accepts.
abbrev pub is_affected : Mapping → Result (String × GroupVersionResource) → Bool
is_affected m (ok (namespace, gvr)) = accepts_gvr m gvr
is_affected m _ = false

abbrev namespace_of : Result (String × GroupVersionResource) → String
namespace_of (ok (namespace, gvr)) = namespace
namespace_of _ = ""

abbrev Workload : Type 0
Workload = Object → Result (String × GroupVersionResource)

-- The affected bindings, each with its namespace.
abbrev if_affected : Bool → String → Object → List (String × Object) → List (String × Object)
if_affected b namespace o rest = if b then (namespace, o) ∷ rest else rest

unfoldable pub affected : Mapping → Workload → List Object → List (String × Object)
unfolding accepts_gvr
affected m workload [] = []
affected m workload (o ∷ os) =
    if_affected (is_affected m (workload o)) (namespace_of (workload o)) o (affected m workload os)

module _ (K : Codecs) (C : Client) where
  open C use {World}

  -- The cluster after an update of each of the bindings.
  unfoldable pub updated :
      (kind : GroupVersionResource) → (serialized : String) → List (String × Object) → World → World
  unfolding with_mapping
  updated kind serialized [] w = w
  updated kind serialized ((namespace, o) ∷ os) w =
      updated kind serialized os (C.update kind namespace (with_mapping K serialized o) w).1

  module _ (R : RestMapper) (m : Mapping) (serialized : String) where
    -- One step of the loop, from what is known of the rest of it.
    annotate_step-ok :
        (kind : GroupVersionResource) (o : Object) (os : List (String × Object)) (w w' : World)
        (rest : World → Result (Unit {0}) × World)
        → ((v : World) → rest v ≡ (ok tt, w') → w' ≡ updated kind serialized os v)
        → (found : Result (String × GroupVersionResource))
        → (elim found as (λ _. Result (Unit {0}) × World) [
          | err e ↦ (err e, w)
          | panic e ↦ (panic e, w)
          | ok (namespace, gvr) ↦
              if accepts_gvr m gvr
              then after_update (C.update kind namespace (with_mapping K serialized o) w) rest
              else rest w
        ])
          ≡ (ok tt, w')
        → w'
          ≡ updated kind serialized (if_affected (is_affected m found) (namespace_of found) o os) w
    unfolding updated
    annotate_step-ok kind o os w w' rest later (err e) h = cc
    annotate_step-ok kind o os w w' rest later (panic e) h = cc
    annotate_step-ok kind o os w w' rest later (ok (namespace, gvr)) h =
        by_test (accepts_gvr m gvr) h
      where
        by_update :
            (u : Option Error × World)
            → after_update u rest ≡ (ok tt, w')
            → w' ≡ updated kind serialized os u.1
        by_update (some e, v) h = cc
        by_update (none, v) h = later v h

        by_test :
            (b : Bool)
            → (if b
                then after_update (C.update kind namespace (with_mapping K serialized o) w) rest
                else rest w)
              ≡ (ok tt, w')
            → w' ≡ updated kind serialized (if_affected b namespace o os) w
        by_test true h = by_update (C.update kind namespace (with_mapping K serialized o) w) h
        by_test false h = later w h

    annotate_each-ok :
        (kind : GroupVersionResource) (workload : Workload) (os : List Object) (w w' : World)
        → annotate_each K R C m serialized kind workload os w ≡ (ok tt, w')
        → w' ≡ updated kind serialized (affected m workload os) w
    unfolding annotate_each affected updated
    annotate_each-ok kind workload [] w w' h = cc
    annotate_each-ok kind workload (o ∷ os) w w' h =
        annotate_step-ok kind o (affected m workload os) w w'
          (annotate_each K R C m serialized kind workload os)
          (λ v. annotate_each-ok kind workload os v w') (workload o) h

    annotate_all-ok :
        (kind : GroupVersionResource) (workload : Workload) (w w' : World)
        → annotate_all K R C m serialized kind workload w ≡ (ok tt, w')
        → (os : List Object) × (C.list kind "" [] w ≡ fetched os)
          × (w' ≡ updated kind serialized (affected m workload os) w)
    unfolding annotate_all
    annotate_all-ok kind workload w w' h = by_list (C.list kind "" [] w) refl h
      where
        by_list :
            (f : Fetched (List Object))
            → C.list kind "" [] w ≡ f
            → (elim (fetched_or_error f) as (λ _. Result (Unit {0}) × World) [
              | ok items ↦ annotate_each K R C m serialized kind workload items w
              | err e ↦ (err e, w)
              | panic e ↦ (panic e, w)
            ])
              ≡ (ok tt, w')
            → (os : List Object) × (C.list kind "" [] w ≡ fetched os)
              × (w' ≡ updated kind serialized (affected m workload os) w)
        by_list (fetched os) e h = (os, e, annotate_each-ok kind workload os w w' h)
        by_list (absent x) e h = cc
        by_list (failed x) e h = cc

  -- What `Serialize` has done where it ends without an error.
  pub record Written (R : RestMapper) (m : Mapping) (w w' : World) : Type 0 where
    pub serialized : String
    pub spec_items : List Object
    pub operator_items : List Object
    pub between : World
    pub marshaled : K.marshal_mapping m ≡ ok serialized
    pub spec_listed : C.list spec_bindings "" [] w ≡ fetched spec_items
    pub spec_updated :
        between ≡ updated spec_bindings serialized (affected m (spec_workload K R) spec_items) w
    pub operator_listed : C.list operator_bindings "" [] between ≡ fetched operator_items
    pub operator_updated :
        w'
        ≡ updated operator_bindings serialized
            (affected m (operator_workload K R) operator_items)
            between

  -- Where `Serialize` ends without an error, the cluster is as after updates of exactly the bindings
  -- whose workload the mapping accepts, in the order in which they were listed, first those of the
  -- specification and then the operator's own, each with the text of the mapping as its
  -- annotation.
  pub serialize-Written :
      (R : RestMapper) (m : Mapping) (w w' : World)
      → serialize K R C m w ≡ (ok tt, w')
      → Written R m w w'
  unfolding serialize
  serialize-Written R m w w' h = by_text (K.marshal_mapping m) refl h
    where
      all_of : String → GroupVersionResource → Workload → World → Result (Unit {0}) × World
      all_of = annotate_all K R C m

      then_operator : String → Result (Unit {0}) × World → Result (Unit {0}) × World
      then_operator text (ok _, v) = all_of text operator_bindings (operator_workload K R) v
      then_operator text (err e, v) = (err e, v)
      then_operator text (panic e, v) = (panic e, v)

      then_lem :
          (text : String) (r : Result (Unit {0}) × World)
          → then_operator text r ≡ (
              let (x, v) = r in
              elim x as (λ _. Result (Unit {0}) × World) [
                | ok _ ↦ all_of text operator_bindings (operator_workload K R) v
                | err e ↦ (err e, v)
                | panic e ↦ (panic e, v)
              ])
      then_lem text (ok _, v) = refl
      then_lem text (err e, v) = refl
      then_lem text (panic e, v) = refl

      by_first :
          (text : String)
          → K.marshal_mapping m ≡ ok text
          → (r : Result (Unit {0}) × World) → all_of text spec_bindings (spec_workload K R) w ≡ r
          → then_operator text r ≡ (ok tt, w')
          → Written R m w w'
      by_first text marshaled (ok _, v) e h =
          let (os, listed, same) =
            annotate_all-ok R m text spec_bindings (spec_workload K R) w v e in
          let (ps, listed', same') =
            annotate_all-ok R m text operator_bindings (operator_workload K R) v w' h in
          record {
            serialized = text;
            spec_items = os;
            operator_items = ps;
            between = v;
            marshaled = marshaled;
            spec_listed = listed;
            spec_updated = same;
            operator_listed = listed';
            operator_updated = same';
          }
      by_first text marshaled (err x, v) e h = cc
      by_first text marshaled (panic x, v) e h = cc

      by_text :
          (t : Result String)
          → K.marshal_mapping m ≡ t
          → (elim t as (λ _. Result (Unit {0}) × World) [
            | err e ↦ (err e, w)
            | panic e ↦ (panic e, w)
            | ok text ↦
                let (r, v) = all_of text spec_bindings (spec_workload K R) w in
                elim r as (λ _. Result (Unit {0}) × World) [
                  | ok _ ↦ all_of text operator_bindings (operator_workload K R) v
                  | err e ↦ (err e, v)
                  | panic e ↦ (panic e, v)
                ]
          ])
            ≡ (ok tt, w')
          → Written R m w w'
      by_text (ok text) e h =
          by_first text e (all_of text spec_bindings (spec_workload K R) w) refl
            (then_lem text (all_of text spec_bindings (spec_workload K R) w) ∙ h)
      by_text (err x) e h = cc
      by_text (panic x) e h = cc
