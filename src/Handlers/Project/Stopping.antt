-- ===== src/Handlers/Project/Stopping.antt =====
-- The flow control under the project handlers.
use service_binding_operator.Base.{
  String, ◌≡◌, refl, ◌∙◌, subst, ◌⊎◌, inl, inr, Bool, Option, none, some, List, Error, Result, ok,
  err, panic,
}
use service_binding_operator.Workload.Edit.{Edit}
use service_binding_operator.Machinery.{Machinery, EnvVar}
use service_binding_operator.Workload.Container.{MetaContainer}
use service_binding_operator.Pipeline.Flow.{FlowCtrl, set_error, stop_processing}
use service_binding_operator.Handlers.Act.{Act, ◌>>=◌, ◌>>◌, leave, change, call, attempt, when}
use service_binding_operator.Handlers.Operations.{Operations, MetaPodSpec}
use service_binding_operator.Handlers.Lawful.{IsLawful}
use service_binding_operator.Handlers.Discipline.{
  Discipline, Obeys, leave-Obeys, discipline_rules, attempt-Obeys, call-Obeys, bind-Obeys,
  when-Obeys, done-Obeys,
}
use service_binding_operator.Handlers.Project.{
  stop_with, stop_and_leave, applications_or_none, inject_secret_ref,
}
use service_binding_operator.Handlers.Project.Injection.{
  nil_dereference, known_pods, without_pods, in_pods, with_pods, add_env_to, bindings_as_env,
  mount_in, bindings_as_files,
}

module _ (O : Operations) where
  open O use {
    State, Application, application, flow, set_flow, applications, binding_secret_name,
    binding_name, bind_as_files, env_bindings, set_condition,
  }
  open application use {Place, secret_path, bindable_pods, edit, edit_at}

  -- Where a handler returns early, the flow control is as before, or stopped with an error.
  abbrev pub Stops : FlowCtrl → FlowCtrl → Type 0
  Stops f g = (g ≡ f) ⊎ ((e : Error) × (g ≡ set_error (some e) (stop_processing f)))

  abbrev pub keeps_or_stops : Discipline State
  keeps_or_stops = record {
    flow = flow;
    Passes = λ f g. g ≡ f;
    Leaves = Stops;
    same = λ f. refl;
    trans = λ f g h p q. q ∙ p;
    leaves_after = λ f g h p q. subst (λ (k : FlowCtrl). Stops k h) p q;
  }

  Stops-refl : (f : FlowCtrl) → Stops f f
  Stops-refl f = inl refl

  module _ (L : IsLawful O) where
    stop_with-flow :
        (e : Error) (s : State)
        → flow (stop_with O e s) ≡ set_error (some e) (stop_processing (flow s))
    stop_with-flow e s = L.set_condition-flow _ _ ∙ L.flow-set_flow _ s

    stop_and_leave-Obeys :
        (A : Type 0) (e : Error) → Obeys keeps_or_stops {A = A} (stop_and_leave O e)
    unfolding stop_and_leave Obeys change leave ◌>>◌ ◌>>=◌
    stop_and_leave-Obeys A e s = inr (e, stop_with-flow e s)

    edit_at-Obeys :
        {A : Type 0} (app : Application) (place : Place) (e : Edit A)
        → Obeys keeps_or_stops (attempt (edit_at app place e) (stop_and_leave O))
    edit_at-Obeys {A} app place e =
        attempt-Obeys keeps_or_stops (edit_at app place e) (stop_and_leave O)
          (L.edit_at-flow app place e) (stop_and_leave-Obeys A)

    edit-Obeys :
        {A : Type 0} (app : Application) (e : Edit A)
        → Obeys keeps_or_stops (attempt (edit app e) (stop_and_leave O))
    edit-Obeys {A} app e =
        attempt-Obeys keeps_or_stops (edit app e) (stop_and_leave O) (L.edit-flow app e)
          (stop_and_leave-Obeys A)

    applications_or_none-Obeys : Obeys keeps_or_stops (applications_or_none O)
    unfolding applications_or_none
    applications_or_none-Obeys = search (discipline_rules, L.applications-flow)

    call_secret_name-Obeys : Obeys keeps_or_stops (call binding_secret_name)
    call_secret_name-Obeys =
        call-Obeys keeps_or_stops binding_secret_name L.binding_secret_name-flow

    module _ (M : Machinery) where
      known_pods-flow : (app : Application) (s : State) → flow (known_pods M O app s).1 ≡ flow s
      known_pods-flow app s = by_result (bindable_pods app s) (L.bindable_pods-flow app s)
        where
          by_result :
              (r : Result (Option (MetaPodSpec Place)) × State)
              → flow r.1 ≡ flow s
              → flow
                  (let (a, s') = r in
                    elim a as (λ _. Result (Option (MetaPodSpec Place)) × State) [
                      | ok none ↦ (panic nil_dereference, s')
                      | ok (some pods) ↦ (ok (some pods), s')
                      | err e ↦ (err e, s')
                      | panic e ↦ (panic e, s')
                    ]).1
                ≡ flow s
          by_result (ok none, s') h = h
          by_result (ok (some pods), s') h = h
          by_result (err e, s') h = h
          by_result (panic e, s') h = h

      without_pods-Obeys :
          (app : Application) (e : Error) → Obeys keeps_or_stops (without_pods M O app e)
      unfolding without_pods
      without_pods-Obeys app e = search (discipline_rules, stop_and_leave-Obeys)

      in_pods-Obeys :
          (next : MetaPodSpec Place → Act State (Unit {0})) (pods : Option (MetaPodSpec Place))
          → ((p : MetaPodSpec Place) → Obeys keeps_or_stops (next p))
          → Obeys keeps_or_stops (in_pods M O next pods)
      unfolding in_pods
      in_pods-Obeys next none h = done-Obeys keeps_or_stops
      in_pods-Obeys next (some p) h = h p

      with_pods-Obeys :
          (app : Application) (next : MetaPodSpec Place → Act State (Unit {0}))
          → ((pods : MetaPodSpec Place) → Obeys keeps_or_stops (next pods))
          → Obeys keeps_or_stops (with_pods M O app next)
      unfolding with_pods
      with_pods-Obeys app next h =
          bind-Obeys keeps_or_stops (attempt (known_pods M O app) (without_pods M O app))
            (in_pods M O next) (search (discipline_rules, known_pods-flow, without_pods-Obeys))
            λ pods. in_pods-Obeys next pods h

      leave_at_once-Obeys : (b : Bool) → Obeys keeps_or_stops (when b leave)
      leave_at_once-Obeys b =
          when-Obeys keeps_or_stops b leave (leave-Obeys keeps_or_stops (Unit {0}) Stops-refl)

      ruleset stops_rules = (
        discipline_rules, edit-Obeys, edit_at-Obeys, applications_or_none-Obeys,
        call_secret_name-Obeys, leave_at_once-Obeys, with_pods-Obeys,
      )

      add_env_to-Obeys :
          (app : Application) (name : String) (vars : List EnvVar) (c : MetaContainer × Place)
          → Obeys keeps_or_stops (add_env_to M O app name vars c)
      unfolding add_env_to
      add_env_to-Obeys app name vars (c, place) = search stops_rules

      mount_in-Obeys :
          (app : Application) (name : String) (c : MetaContainer × Place)
          → Obeys keeps_or_stops (mount_in M O app name c)
      unfolding mount_in
      mount_in-Obeys app name (c, place) = search stops_rules

      bindings_as_env-Obeys : Obeys keeps_or_stops (bindings_as_env M O)
      unfolding bindings_as_env
      bindings_as_env-Obeys = search (stops_rules, add_env_to-Obeys) depth 14

      bindings_as_files-Obeys : Obeys keeps_or_stops (bindings_as_files M O)
      unfolding bindings_as_files
      bindings_as_files-Obeys = search (stops_rules, mount_in-Obeys) depth 14

      inject_secret_ref-Obeys :
          (set_nested_field : String → List String → Edit (Unit {0}))
          → Obeys keeps_or_stops (inject_secret_ref O set_nested_field)
      unfolding inject_secret_ref
      inject_secret_ref-Obeys set_nested_field = search stops_rules depth 14

      -- Where `BindingsAsEnv`, `BindingsAsFiles` and `InjectSecretRef` run in a context whose flow
      -- control only its own operations change (Handlers.Lawful.IsLawful), each of them goes on, or
      -- panics, with the flow control of before, and where it returns early the flow control is as
      -- before or stopped with an error; so none of them asks for a retry.
      pub injection-Stops :
          (set_nested_field : String → List String → Edit (Unit {0}))
          → Obeys keeps_or_stops (bindings_as_env M O)
            × Obeys keeps_or_stops (bindings_as_files M O)
            × Obeys keeps_or_stops (inject_secret_ref O set_nested_field)
      injection-Stops set_nested_field =
          (bindings_as_env-Obeys, bindings_as_files-Obeys, inject_secret_ref-Obeys set_nested_field)
