-- ===== src/Handlers/Project/Holding.antt =====
-- The flow control under `PreFlightCheck` (pkg/reconcile/pipeline/handler/project/impl.go).
use service_binding_operator.Base.{
  String, ◌≡◌, refl, ap, ◌∙◌, ◌⊎◌, inl, inr, Bool, true, false, List, [], ◌∷◌, Error, Result, ok,
  err, panic, if◌then◌else◌,
}
use service_binding_operator.Base.Dict.{Dict, contains}
use service_binding_operator.Apis.Conditions.{
  conditions, application_not_found, no_binding_data_reason, empty_application_reason,
  not_collection_ready, reason, msg,
}
use service_binding_operator.Pipeline.Flow.{FlowCtrl, retry_processing, stop_processing, set_error}
use service_binding_operator.Handlers.Act.{◌>>=◌, ◌>>◌, done, leave, change, attempt}
use service_binding_operator.Handlers.Operations.{Operations}
use service_binding_operator.Handlers.Lawful.{IsLawful}
use service_binding_operator.Handlers.Discipline.{
  Discipline, Obeys, Ended, Ended-after, change-Obeys, discipline_rules,
}
use service_binding_operator.Handlers.Project.{
  no_injection, no_data, retry_for, stop_flow, report_missing, check_mandatory, check_projection,
  pre_flight_check,
}

module _ (O : Operations) where
  open O use {State, Application, flow, set_condition, persist_secret}

  -- Any flow control may be where a handler goes on, but a handler that ends early has stopped it.
  abbrev pub stops_early : Discipline State
  stops_early = record {
    flow = flow;
    Passes = λ f g. Unit {0};
    Leaves = λ f g. g.stop ≡ true;
    same = λ f. tt;
    trans = λ f g h p q. tt;
    leaves_after = λ f g h p q. q;
  }

  -- Persisting the secret gives an error.
  abbrev pub PersistFailed : State → Type 0
  PersistFailed s = (e : Error) × (t : State) × (persist_secret s ≡ (err e, t))

  any_change-Obeys : (f : State → State) → Obeys stops_early (change f)
  any_change-Obeys f = change-Obeys stops_early f (λ s. tt)

  then_leave-Obeys :
      (A : Type 0) (f : State → State)
      → ((s : State) → (flow (f s)).stop ≡ true)
      → Obeys stops_early {A = A} (change f >> leave)
  unfolding Obeys change leave ◌>>◌ ◌>>=◌
  then_leave-Obeys A f h s = h s

  then_then_leave-Obeys :
      (A : Type 0) (f g : State → State)
      → ((s : State) → (flow (g (f s))).stop ≡ true)
      → Obeys stops_early {A = A} (change f >> (change g >> leave))
  unfolding Obeys change leave ◌>>◌ ◌>>=◌
  then_then_leave-Obeys A f g h s = h s

  module _ (L : IsLawful O) where
    no_application-Obeys :
        (A : Type 0) (e : Error)
        → Obeys stops_early {A = A} (
            change (retry_for O e)
            >> (change (set_condition (msg e (application_not_found no_injection))) >> leave))
    unfolding retry_processing
    no_application-Obeys A e =
        then_then_leave-Obeys _ _ _
          λ s. ap (λ (f : FlowCtrl). f.stop) (L.set_condition-flow _ _ ∙ L.flow-set_flow _ s)

    empty_application-Obeys : Obeys stops_early {A = Unit {0}} (
        change (set_condition (reason empty_application_reason no_injection))
        >> (change (stop_flow O) >> leave))
    unfolding stop_processing
    empty_application-Obeys =
        then_then_leave-Obeys _ _ _ λ s. ap (λ (f : FlowCtrl). f.stop) (L.flow-set_flow _ _)

    without_data-Obeys : Obeys stops_early {A = Unit {0}} (
        change (retry_for O no_data)
        >> (change (set_condition (msg no_data (reason no_binding_data_reason no_injection)))
            >> leave))
    unfolding retry_processing
    without_data-Obeys =
        then_then_leave-Obeys _ _ _
          λ s. ap (λ (f : FlowCtrl). f.stop) (L.set_condition-flow _ _ ∙ L.flow-set_flow _ s)

    report_missing-stop : (k : String) (s : State) → (flow (report_missing O k s)).stop ≡ true
    unfolding stop_processing set_error
    report_missing-stop k s = ap (λ (f : FlowCtrl). f.stop) (L.flow-set_flow _ _)

    check_mandatory-Obeys :
        (keys : List String) (items : Dict String)
        → Obeys stops_early (check_mandatory O keys items)
    unfolding check_mandatory Obeys done ◌>>◌ ◌>>=◌ change leave
    check_mandatory-Obeys [] items s = tt
    check_mandatory-Obeys (k ∷ ks) items s =
        by_test (contains k items) (check_mandatory-Obeys ks items s)
      where
        by_test :
            (b : Bool)
            → Ended stops_early (flow s) (check_mandatory O ks items s)
            → Ended stops_early
                (flow s)
                ((if b then check_mandatory O ks items else change (report_missing O k) >> leave) s)
        by_test true later = later
        by_test false later = report_missing-stop k s

    check_projection-Obeys : (keys : List String) → Obeys stops_early (check_projection O keys)
    unfolding check_projection
    check_projection-Obeys keys =
        search
          (
            discipline_rules, any_change-Obeys, no_application-Obeys, empty_application-Obeys,
            without_data-Obeys, check_mandatory-Obeys, L.applications-flow, L.binding_items-flow,
          )
          depth 14

    -- Where the secret is persisted, `PreFlightCheck` ends early only with a stop.
    pub pre_flight_check-Ended :
        (keys : List String) (s : State)
        → PersistFailed s ⊎ Ended stops_early (flow s) (pre_flight_check O keys s)
    unfolding pre_flight_check attempt ◌>>◌ ◌>>=◌ Obeys
    pre_flight_check-Ended keys s = by_result (persist_secret s) refl
      where
        by_result :
            (r : Result (Unit {0}) × State)
            → persist_secret s ≡ r
            → PersistFailed s
              ⊎ Ended stops_early (flow s) (
                  (attempt
                        (λ (_ : State). r)
                        (λ e. change (set_condition (not_collection_ready conditions)) >> leave)
                      >> check_projection O keys)
                    s)
        by_result (ok _, t) p = inr (
            Ended-after stops_early (flow s) (flow t) (check_projection O keys t) tt
              (check_projection-Obeys keys t))
        by_result (err e, t) p = inl (e, t, p)
        by_result (panic e, t) p = inr tt
