-- ===== src/Pipeline/Halting.antt =====
-- Lemmas on which handlers of a pipeline run, and on a handler that panics.
use service_binding_operator.Base.{
  ◌≡◌, refl, sym, ap, ◌∙◌, Bool, true, false, some, List, [], ◌∷◌, ◌++◌, Error, wrap, Result, ok,
  err, panic, if◌then◌else◌, if-true, if-false,
}
use service_binding_operator.Pipeline.Flow.{FlowCtrl, retry_processing, fresh_flow}
use service_binding_operator.Pipeline.Process.{
  Context, Outcome, returned, panicked, Handler, invoke_handler, run_handlers, finish, process,
}

module _ (C : Context) where
  open C use {State, flow, set_flow, close}

  -- Where no stop is set at first, running two lists of handlers one after the other in one
  -- pipeline is running the first list, and then the second one from the state and status that the
  -- first left, unless that status says stop: then no handler of the second list runs.
  pub run_handlers-append :
      (hs ks : List (Handler C)) (status : FlowCtrl) (s : State)
      → status.stop ≡ false
      → run_handlers C (hs ++ ks) status s ≡ (
          let (reached, s') = run_handlers C hs status s in
          if reached.stop then (reached, s') else run_handlers C ks reached s')
  unfolding run_handlers
  run_handlers-append [] ks status s h = rw h
  run_handlers-append (h ∷ hs) ks status s e =
      by_stop (run_handlers-append hs ks (flow s') s') (flow s').stop refl
    where
      s' : State
      s' = invoke_handler C h s

      here : FlowCtrl × State
      here = (flow s', s')

      by_stop :
          ((flow s').stop ≡ false
            → run_handlers C (hs ++ ks) (flow s') s' ≡ (
                let (reached, t) = run_handlers C hs (flow s') s' in
                if reached.stop then (reached, t) else run_handlers C ks reached t))
          → (b : Bool) → (flow s').stop ≡ b
          → (if b then here else run_handlers C (hs ++ ks) (flow s') s') ≡ (
              let (reached, t) = if b then here else run_handlers C hs (flow s') s' in
              if reached.stop then (reached, t) else run_handlers C ks reached t)
      by_stop later true stops = sym (if-true _ stops)
      by_stop later false goes = later goes

  stopped :
      (s : State) (rest : FlowCtrl × State) {f : FlowCtrl}
      → flow s ≡ f
      → f.stop ≡ true
      → (if (flow s).stop then (flow s, s) else rest) ≡ (f, s)
  stopped s rest h stops =
      if-true rest (ap (λ (g : FlowCtrl). g.stop) h ∙ stops) ∙ ap (λ (g : FlowCtrl). (g, s)) h

  -- What the handlers reach when one panics after others that did not stop.
  run_handlers-panicked :
      ((f : FlowCtrl) (s : State) → flow (set_flow f s) ≡ f)
      → (hs ks : List (Handler C)) (h : Handler C) (s s₁ s₂ : State) (status reached : FlowCtrl)
        (e : Error)
      → status.stop ≡ false
      → run_handlers C hs status s ≡ (reached, s₁)
      → reached.stop ≡ false
      → h s₁ ≡ panicked e s₂
      → let flagged = retry_processing (some (wrap "panic occurred: %v" [] e)) (flow s₂) in
        run_handlers C (hs ++ (h ∷ ks)) status s ≡ (flagged, set_flow flagged s₂)
  unfolding run_handlers invoke_handler retry_processing
  run_handlers-panicked law hs ks h s s₁ s₂ status reached e goes ran goes_on panics =
      run_handlers-append hs (h ∷ ks) status s goes
      ∙ ap (λ (r : FlowCtrl × State). if r.0.stop then r else run_handlers C (h ∷ ks) r.0 r.1) ran
      ∙ if-false _ goes_on
      ∙ by_handler (h s₁) panics
    where
      flagged : FlowCtrl
      flagged = retry_processing (some (wrap "panic occurred: %v" [] e)) (flow s₂)

      after : Outcome State → State
      after (returned s') = s'
      after (panicked e s') =
          set_flow (retry_processing (some (wrap "panic occurred: %v" [] e)) (flow s')) s'

      by_handler :
          (r : Outcome State)
          → r ≡ panicked e s₂
          → (let s' = after r in
              if (flow s').stop then (flow s', s') else run_handlers C ks (flow s') s')
            ≡ (flagged, set_flow flagged s₂)
      by_handler r p = rw p (stopped (set_flow flagged s₂) _ (law flagged s₂) refl)

  -- The error that is left of one before `Close` when `Close` is done.
  unfoldable pub error_after : Result (Unit {0}) → Error → Error
  error_after (ok _) e = e
  error_after (err e') e = e'
  error_after (panic e') e = wrap "panic occurred: %v" [] e'

  -- Where a handler panics after handlers that did not stop, in a context that keeps the flow
  -- control it is given, `Process` asks for a retry and returns an error, whatever handlers follow:
  -- that panic if `Close` succeeds, and otherwise the error or the panic of `Close`.
  pub process-panicked :
      ((f : FlowCtrl) (s : State) → flow (set_flow f s) ≡ f)
      → (hs ks : List (Handler C)) (h : Handler C) (s s₁ s₂ : State) (reached : FlowCtrl)
        (e : Error)
      → run_handlers C hs fresh_flow s ≡ (reached, s₁)
      → reached.stop ≡ false
      → h s₁ ≡ panicked e s₂
      → let result = (process C (hs ++ (h ∷ ks)) (ok s)).0 in
        let reason = wrap "panic occurred: %v" [] e in
        let closed = close (set_flow (retry_processing (some reason) (flow s₂)) s₂) in
        (result.retry ≡ true) × (result.error ≡ some (error_after closed.0 reason))
  unfolding process retry_processing finish error_after
  process-panicked law hs ks h s s₁ s₂ reached e ran goes_on panics =
      rw (run_handlers-panicked law hs ks h s s₁ s₂ fresh_flow reached e refl ran goes_on panics)
        (closed (retry_processing (some (wrap "panic occurred: %v" [] e)) (flow s₂)) refl refl _)
    where
      closed :
          (status : FlowCtrl) {x : Error}
          → status.retry ≡ true
          → status.error ≡ some x
          → (r : Result (Unit {0}))
          → ((finish C status r).retry ≡ true)
            × ((finish C status r).error ≡ some (error_after r x))
      closed status again says (ok _) = (again, says)
      closed status again says (err y) = (refl, refl)
      closed status again says (panic y) = (refl, refl)
