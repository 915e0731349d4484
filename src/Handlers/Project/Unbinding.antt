-- ===== src/Handlers/Project/Unbinding.antt =====
-- The flow control under `Unbind` (pkg/reconcile/pipeline/handler/project/impl.go).
use service_binding_operator.Base.{
  String, ◌≡◌, refl, ap, ◌∙◌, Bool, true, false, Option, none, some, List, Error, if◌then◌else◌,
}
use service_binding_operator.Machinery.{Machinery}
use service_binding_operator.Workload.Container.{MetaContainer}
use service_binding_operator.Workload.Edit.{Edit}
use service_binding_operator.Pipeline.Flow.{FlowCtrl, retry_processing, set_error, stop_processing}
use service_binding_operator.Handlers.Act.{
  Act, Progress, goes_on, returns, panics, ◌>>=◌, ◌>>◌, done, leave, change, look, call, attempt,
  when, crash,
}
use service_binding_operator.Handlers.Operations.{Operations, MetaPodSpec, EnvBinding}
use service_binding_operator.Handlers.Lawful.{IsLawful}
use service_binding_operator.Handlers.Discipline.{
  Discipline, Ended, Obeys, discipline_rules, attempt-Obeys, call-Obeys, look-Obeys,
}
use service_binding_operator.Handlers.Project.{stop_and_leave}
use service_binding_operator.Handlers.Project.Injection.{
  nil_dereference, stop_and_return, unbind_container, pods_to_unbind, unbind_application, clean,
  unbind, unbind_all,
}

module _ (O : Operations) where
  open O use {
    State, Application, application, flow, set_flow, applications, binding_secret_name,
    binding_name, env_bindings, unbind_requested, clean_annotations,
  }
  open application use {Place, bindable_pods, edit, edit_at}

  abbrev stops_early : Discipline State
  stops_early = record {
    flow = flow;
    Passes = λ f g. g ≡ f;
    Leaves = λ f g. g.stop ≡ true;
    same = λ f. refl;
    trans = λ f g h p q. q ∙ p;
    leaves_after = λ f g h p q. q;
  }

  -- The handler ends with the flow control stopped, unless it panics.
  abbrev pub Halts {ℓ} : {A : Type ℓ} → Progress A × State → Type 0
  Halts (goes_on a, s) = (flow s).stop ≡ true
  Halts (returns, s) = (flow s).stop ≡ true
  Halts (panics e, s) = Unit {0}

  unfoldable AlwaysHalts : Act State (Unit {0}) → Type 0
  AlwaysHalts m = (s : State) → Halts (m s)

  bind-AlwaysHalts {ℓ} :
      {A : Type ℓ} (m : Act State A) (k : A → Act State (Unit {0}))
      → Obeys stops_early m
      → ((a : A) → AlwaysHalts (k a))
      → AlwaysHalts (m >>= k)
  unfolding Obeys ◌>>=◌ AlwaysHalts
  bind-AlwaysHalts {A = A} m k h hk s = by_end (m s) (h s)
    where
      by_end :
          (r : Progress A × State)
          → Ended stops_early (flow s) r
          → Halts (
              let (p, t) = r in
              elim p as (λ _. Progress (Unit {0}) × State) [
                | goes_on a ↦ k a t
                | returns ↦ (returns, t)
                | panics e ↦ (panics e, t)
              ])
      by_end (goes_on a, t) h = hk a t
      by_end (returns, t) h = h
      by_end (panics e, t) h = tt

  then-AlwaysHalts {ℓ} :
      {A : Type ℓ} (m : Act State A) (k : Act State (Unit {0}))
      → Obeys stops_early m
      → AlwaysHalts k
      → AlwaysHalts (m >> k)
  unfolding ◌>>◌
  then-AlwaysHalts m k h hk = bind-AlwaysHalts m (λ _. k) h (λ _. hk)

  module _ (L : IsLawful O) where
    stop_and_leave-Obeys : (A : Type 0) (e : Error) → Obeys stops_early {A = A} (stop_and_leave O e)
    unfolding stop_and_leave Obeys change leave ◌>>◌ ◌>>=◌ set_error stop_processing
    stop_and_leave-Obeys A e s =
        ap (λ (f : FlowCtrl). f.stop) (L.set_condition-flow _ _ ∙ L.flow-set_flow _ s)

    edit_at-Obeys :
        {A : Type 0} (app : Application) (place : Place) (e : Edit A)
        → Obeys stops_early (attempt (edit_at app place e) (stop_and_leave O))
    edit_at-Obeys {A} app place e =
        attempt-Obeys stops_early (edit_at app place e) (stop_and_leave O)
          (L.edit_at-flow app place e) (stop_and_leave-Obeys A)

    edit-Obeys :
        {A : Type 0} (app : Application) (e : Edit A)
        → Obeys stops_early (attempt (edit app e) (stop_and_leave O))
    edit-Obeys {A} app e =
        attempt-Obeys stops_early (edit app e) (stop_and_leave O) (L.edit-flow app e)
          (stop_and_leave-Obeys A)

    module _ (M : Machinery) where
      stop_and_return-Obeys : (A : Type 0) → Obeys stops_early {A = A} (stop_and_return M O)
      unfolding stop_and_return Obeys change leave ◌>>◌ ◌>>=◌ stop_processing
      stop_and_return-Obeys A s = ap (λ (f : FlowCtrl). f.stop) (L.flow-set_flow _ s)

      crash-Obeys : (A : Type 0) (e : Error) → Obeys stops_early {A = A} (crash e)
      unfolding Obeys crash
      crash-Obeys A e s = refl

      pods_or_return-Obeys :
          (pods : Option (MetaPodSpec Place))
          → Obeys stops_early {A = MetaPodSpec Place}
              (elim pods [ none ↦ stop_and_return M O | some p ↦ look (λ s. p) ])
      pods_or_return-Obeys none = stop_and_return-Obeys (MetaPodSpec Place)
      pods_or_return-Obeys (some p) = look-Obeys stops_early (λ s. p)

      bindable-Obeys :
          (app : Application)
          → Obeys stops_early (attempt (bindable_pods app) (λ e. crash nil_dereference))
      bindable-Obeys app =
          attempt-Obeys stops_early (bindable_pods app) (λ e. crash nil_dereference)
            (L.bindable_pods-flow app)
            (λ e. crash-Obeys (Option (MetaPodSpec Place)) nil_dereference)

      pods_to_unbind-Obeys : (app : Application) → Obeys stops_early (pods_to_unbind M O app)
      unfolding pods_to_unbind
      pods_to_unbind-Obeys app = search (discipline_rules, bindable-Obeys, pods_or_return-Obeys)

      ruleset unbind_rules =
          (discipline_rules, edit-Obeys, edit_at-Obeys, pods_to_unbind-Obeys, stop_and_return-Obeys)

      unbind_container-Obeys :
          (app : Application) (secret_name name : String) (envs : List EnvBinding)
          (c : MetaContainer × Place)
          → Obeys stops_early (unbind_container M O app secret_name name envs c)
      unfolding unbind_container
      unbind_container-Obeys app secret_name name envs (c, place) = search unbind_rules depth 9

      unbind_application-Obeys :
          (secret_name name : String) (envs : List EnvBinding) (app : Application)
          → Obeys stops_early (unbind_application M O secret_name name envs app)
      unfolding unbind_application
      unbind_application-Obeys secret_name name envs app =
          search (unbind_rules, unbind_container-Obeys) depth 9

      call_secret_name-Obeys : Obeys stops_early (call binding_secret_name)
      call_secret_name-Obeys = call-Obeys stops_early binding_secret_name L.binding_secret_name-flow

      applications-Obeys : Obeys stops_early (attempt applications (λ e. stop_and_return M O))
      applications-Obeys =
          attempt-Obeys stops_early applications (λ e. stop_and_return M O) L.applications-flow
            (λ e. stop_and_return-Obeys (List Application))

      clean-AlwaysHalts : AlwaysHalts (clean M O)
      unfolding AlwaysHalts clean ◌>>=◌ call change retry_processing stop_processing
      clean-AlwaysHalts s =
          let (cleaned, s') = clean_annotations s in
          ap (λ (f : FlowCtrl). f.stop) (L.flow-set_flow _ s') ∙ either cleaned (flow s')
        where
          either :
              (b : Bool) (f : FlowCtrl)
              → (if b then retry_processing none f else stop_processing f).stop ≡ true
          either true f = refl
          either false f = refl

      unbind_all-AlwaysHalts : AlwaysHalts (unbind_all M O)
      unfolding unbind_all
      unbind_all-AlwaysHalts =
          search
            (
              bind-AlwaysHalts, then-AlwaysHalts, unbind_rules, applications-Obeys,
              call_secret_name-Obeys, unbind_application-Obeys, clean-AlwaysHalts,
            )
            depth 9

      -- Where everything but the flow control's own operations leaves that as it is
      -- (Handlers.Lawful.IsLawful), a requested unbinding ends with the flow control stopped, unless
      -- it panics.
      pub unbind-Halts : (s : State) → unbind_requested s ≡ true → Halts (unbind M O s)
      unfolding unbind ◌>>=◌ ◌>>◌ look when leave done AlwaysHalts
      unbind-Halts s e = rw e (unbind_all-AlwaysHalts s)
