-- ===== src/Tests/PipelineTests.antt =====
-- Runs of a pipeline whose context keeps a list of the handlers that ran.
use service_binding_operator.Base.{
  String, ◌≡◌, refl, true, false, none, some, List, [], ◌∷◌, ◌++◌, error, wrap, ok,
}
use service_binding_operator.Pipeline.Flow.{FlowCtrl, fresh_flow, stop_processing}
use service_binding_operator.Pipeline.Process.{
  Context, returned, panicked, Handler, run_handlers, process, invoke_handler,
}
use service_binding_operator.Pipeline.Halting.{error_after, run_handlers-append, process-panicked}

abbrev log : Context
log = record {
  State = FlowCtrl × List String;
  flow = λ s. s.0;
  set_flow = λ f s. (f, s.1);
  close = λ s. (ok tt, s);
}

abbrev collect : Handler log
collect (f, names) = returned (f, names ++ ("collect" ∷ []))

abbrev stops : Handler log
stops (f, names) = returned (stop_processing f, names ++ ("stops" ∷ []))

abbrev fails : Handler log
fails (f, names) = panicked (error "nil pointer dereference") (f, names ++ ("fails" ∷ []))

abbrev start : FlowCtrl × List String
start = (fresh_flow, [])

abbrev stopped : FlowCtrl
stopped = record { retry = false; stop = true; error = none; delay = 0 }

run_handlers-append_example :
    run_handlers log ((collect ∷ stops ∷ []) ++ (collect ∷ [])) fresh_flow start
    ≡ (stopped, (stopped, "collect" ∷ "stops" ∷ []))
unfolding run_handlers stop_processing
run_handlers-append_example =
    run_handlers-append log (collect ∷ stops ∷ []) (collect ∷ []) fresh_flow start refl

process-panicked_example :
    let result = (process log ((collect ∷ []) ++ (fails ∷ (collect ∷ []))) (ok start)).0 in
    (result.retry ≡ true)
    × (result.error ≡ some (wrap "panic occurred: %v" [] (error "nil pointer dereference")))
unfolding run_handlers invoke_handler error_after
process-panicked_example =
    process-panicked log (λ f s. refl) (collect ∷ []) (collect ∷ []) fails start
      (fresh_flow, "collect" ∷ []) (fresh_flow, "collect" ∷ "fails" ∷ []) fresh_flow
      (error "nil pointer dereference") refl refl refl
