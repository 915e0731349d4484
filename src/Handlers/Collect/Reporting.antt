-- ===== src/Handlers/Collect/Reporting.antt =====
-- The flow control under the collect handlers.
use service_binding_operator.Base.{
  String, ℕ, suc, ◌≡◌, refl, sym, ap, ◌∙◌, subst, ◌⊎◌, inl, inr, true, some, Error,
}
use service_binding_operator.Value.{
  Value, null, text, number, bool, object, array, rows, Fields, end, field, Items, nil, item, Rows,
  empty, row,
}
use service_binding_operator.Pipeline.Flow.{FlowCtrl, retry_processing, set_error, stop_processing}
use service_binding_operator.Handlers.Act.{◌>>=◌, ◌>>◌, leave, change, crash}
use service_binding_operator.Handlers.Operations.{Operations}
use service_binding_operator.Handlers.Lawful.{IsLawful}
use service_binding_operator.Handlers.Discipline.{
  Discipline, Obeys, done-Obeys, change-Obeys, then-Obeys, unchanged,
}
use service_binding_operator.Handlers.Collect.{
  request_retry, retry_and_leave, report_and_stop, add_item, collect_items, collect_fields,
  collect_elements, collect_rows,
}

module _ (O : Operations) where
  open O use {State, Service, service, flow, set_flow, services}

  -- No retry is asked for, and the flow control is as before or stopped with an error.
  abbrev pub Reports : FlowCtrl → FlowCtrl → Type 0
  Reports f g =
      (g.retry ≡ f.retry) × ((g ≡ f) ⊎ ((g.stop ≡ true) × ((e : Error) × (g.error ≡ some e))))

  pub Reports-trans : (f g h : FlowCtrl) → Reports f g → Reports g h → Reports f h
  Reports-trans f g h (r, p) (r', inr q) = (r' ∙ r, inr q)
  Reports-trans f g h (r, p) (r', inl q) = (
    r' ∙ r,
    subst (λ (k : FlowCtrl). (k ≡ f) ⊎ ((k.stop ≡ true) × ((e : Error) × (k.error ≡ some e))))
        (sym q) p,
  )

  -- Where a handler returns early, it may also have asked for a retry with an error.
  abbrev pub Retries : FlowCtrl → FlowCtrl → Type 0
  Retries f g = Reports f g ⊎ ((e : Error) × (g ≡ retry_processing (some e) f))

  pub Retries-after : (f g h : FlowCtrl) → Reports f g → Retries g h → Retries f h
  unfolding retry_processing
  Retries-after f g h p (inl q) = inl (Reports-trans f g h p q)
  Retries-after f g h p (inr q) = inr q

  abbrev pub reports_or_retries : Discipline State
  reports_or_retries = record {
    flow = flow;
    Passes = Reports;
    Leaves = Retries;
    same = λ f. (refl, inl refl);
    trans = Reports-trans;
    leaves_after = Retries-after;
  }

  pub Retries-refl : (f : FlowCtrl) → Retries f f
  Retries-refl f = inl (refl, inl refl)

  module _ (L : IsLawful O) where
    request_retry-flow :
        (r : String) (e : Error) (s : State)
        → flow (request_retry O r e s) ≡ retry_processing (some e) (flow s)
    request_retry-flow r e s = L.set_condition-flow _ _ ∙ L.flow-set_flow _ s

    pub retry_and_leave-Obeys :
        (A : Type 0) (r : String) (e : Error)
        → Obeys reports_or_retries {A = A} (retry_and_leave O r e)
    unfolding retry_and_leave Obeys change leave ◌>>◌ ◌>>=◌
    retry_and_leave-Obeys A r e s = inr (e, request_retry-flow r e s)

    pub crash-Obeys : (A : Type 0) (e : Error) → Obeys reports_or_retries {A = A} (crash e)
    unfolding Obeys crash
    crash-Obeys A e s = (refl, inl refl)

    report_and_stop-Reports :
        (r : String) (shown e : Error) (s : State)
        → Reports (flow s) (flow (report_and_stop O r shown e s))
    unfolding stop_processing set_error
    report_and_stop-Reports r shown e s =
        subst (λ (g : FlowCtrl). Reports (flow s) g)
          (sym (
            L.flow-set_flow _ _
            ∙ ap (λ (f : FlowCtrl). stop_processing (set_error (some e) f))
                (L.set_condition-flow _ s)))
          (refl, inr (refl, (e, refl)))

    pub report_and_stop-Obeys :
        (r : String) (shown e : Error)
        → Obeys reports_or_retries (change (report_and_stop O r shown e))
    report_and_stop-Obeys r shown e =
        change-Obeys reports_or_retries (report_and_stop O r shown e)
          (report_and_stop-Reports r shown e)

    pub kept-Obeys :
        (f : State → State)
        → ((s : State) → flow (f s) ≡ flow s)
        → Obeys reports_or_retries (change f)
    kept-Obeys f h = change-Obeys reports_or_retries f (λ s. unchanged reports_or_retries (h s))

    add_item-Obeys :
        (sv : Service) (name : String) (v : Value)
        → Obeys reports_or_retries (change (add_item O sv name v))
    add_item-Obeys sv name v = kept-Obeys (add_item O sv name v) (L.add_binding_item-flow _)

    collect_elements-Obeys :
        (sv : Service) (name : String) (i : ℕ) (vs : Items)
        → Obeys reports_or_retries (collect_elements O sv name i vs)
    collect_elements-Obeys sv name i nil = done-Obeys reports_or_retries
    collect_elements-Obeys sv name i (item v vs) =
        then-Obeys reports_or_retries _ _ (add_item-Obeys sv _ v)
          (collect_elements-Obeys sv name (suc i) vs)

    collect_rows-Obeys :
        (sv : Service) (name : String) (i : ℕ) (rs : Rows)
        → Obeys reports_or_retries (collect_rows O sv name i rs)
    collect_rows-Obeys sv name i empty = done-Obeys reports_or_retries
    collect_rows-Obeys sv name i (row f rs) =
        then-Obeys reports_or_retries _ _ (add_item-Obeys sv _ (object f))
          (collect_rows-Obeys sv name (suc i) rs)

    mutual
      unfolding collect_items collect_fields

      pub collect_items-Obeys :
          (prefix : String) (sv : Service) (key : String) (v : Value)
          → Obeys reports_or_retries (collect_items O prefix sv key v)
      collect_items-Obeys prefix sv key (object f) = collect_fields-Obeys _ _ sv f
      collect_items-Obeys prefix sv key (array vs) = collect_elements-Obeys sv _ 0 vs
      collect_items-Obeys prefix sv key (rows rs) = collect_rows-Obeys sv _ 0 rs
      collect_items-Obeys prefix sv key null = crash-Obeys (Unit {0}) _
      collect_items-Obeys prefix sv key (text t) = add_item-Obeys sv _ _
      collect_items-Obeys prefix sv key (number n) = add_item-Obeys sv _ _
      collect_items-Obeys prefix sv key (bool b) = add_item-Obeys sv _ _

      pub collect_fields-Obeys :
          (prefix name : String) (sv : Service) (f : Fields)
          → Obeys reports_or_retries (collect_fields O prefix name sv f)
      collect_fields-Obeys prefix name sv end = done-Obeys reports_or_retries
      collect_fields-Obeys prefix name sv (field k null rest) = report_and_stop-Obeys _ _ _
      collect_fields-Obeys prefix name sv (field k (text t) rest) =
          then-Obeys reports_or_retries _ _ (collect_items-Obeys prefix sv k (text t))
            (collect_fields-Obeys prefix name sv rest)
      collect_fields-Obeys prefix name sv (field k (number n) rest) =
          then-Obeys reports_or_retries _ _ (collect_items-Obeys prefix sv k (number n))
            (collect_fields-Obeys prefix name sv rest)
      collect_fields-Obeys prefix name sv (field k (bool b) rest) =
          then-Obeys reports_or_retries _ _ (collect_items-Obeys prefix sv k (bool b))
            (collect_fields-Obeys prefix name sv rest)
      collect_fields-Obeys prefix name sv (field k (object f) rest) =
          then-Obeys reports_or_retries _ _ (collect_items-Obeys prefix sv k (object f))
            (collect_fields-Obeys prefix name sv rest)
      collect_fields-Obeys prefix name sv (field k (array vs) rest) =
          then-Obeys reports_or_retries _ _ (collect_items-Obeys prefix sv k (array vs))
            (collect_fields-Obeys prefix name sv rest)
      collect_fields-Obeys prefix name sv (field k (rows rs) rest) =
          then-Obeys reports_or_retries _ _ (collect_items-Obeys prefix sv k (rows rs))
            (collect_fields-Obeys prefix name sv rest)
