-- ===== src/Handlers/Renaming/Stopping.antt =====
-- The flow control under the naming and mapping handlers.
use service_binding_operator.Base.{
  String, refl, ap, ◌∙◌, inr, Option, none, some, [], Error, Result, ok, err, panic,
}
use service_binding_operator.Base.Dict.{Dict}
use service_binding_operator.Value.{Value}
use service_binding_operator.Machinery.{Machinery}
use service_binding_operator.Pipeline.Flow.{set_error, stop_processing}
use service_binding_operator.Pipeline.Items.{BindingItem}
use service_binding_operator.Handlers.Act.{◌>>=◌, ◌>>◌, leave, change, attempt, look, done, crash}
use service_binding_operator.Handlers.Operations.{Operations}
use service_binding_operator.Handlers.Lawful.{IsLawful}
use service_binding_operator.Handlers.Discipline.{
  Obeys, discipline_rules, attempt-Obeys, change-Obeys, done-Obeys, then-Obeys, look-Obeys,
}
use service_binding_operator.Handlers.Project.Stopping.{keeps_or_stops}
use service_binding_operator.Handlers.Renaming.{
  Templates, NameData, stop_naming, write_name, rename_from, rename_one, handle_naming,
  stop_mapping, add_mapping, handle_mapping,
}

module _ (O : Operations) (L : IsLawful O) where
  open O use {
    State, Service, service, flow, set_flow, set_condition, item_refs, rename_item, binding_items,
    services, add_binding_item,
  }

  stop_naming-Obeys : (A : Type 0) (e : Error) → Obeys (keeps_or_stops O) {A = A} (stop_naming O e)
  unfolding stop_naming Obeys change leave ◌>>◌ ◌>>=◌ set_error stop_processing
  stop_naming-Obeys A e s = inr (
    e,
    L.set_condition-flow _ _ ∙ (L.flow-set_flow _ _ ∙ ap stop_processing (L.flow-set_flow _ s)),
  )

  stop_mapping-Obeys :
      (A : Type 0) (e : Error) → Obeys (keeps_or_stops O) {A = A} (stop_mapping O e)
  unfolding stop_mapping Obeys change leave ◌>>◌ ◌>>=◌ set_error stop_processing
  stop_mapping-Obeys A e s =
      inr (e, L.flow-set_flow _ _ ∙ ap (set_error (some e)) (L.flow-set_flow _ s))

  parse_name-Obeys :
      {A : Type 0} (r : Result A) → Obeys (keeps_or_stops O) (attempt (λ s. (r, s)) (stop_naming O))
  parse_name-Obeys {A} r =
      attempt-Obeys (keeps_or_stops O) (λ s. (r, s)) (stop_naming O) (λ s. refl)
        (stop_naming-Obeys A)

  parse_value-Obeys :
      {A : Type 0} (r : Result A)
      → Obeys (keeps_or_stops O) (attempt (λ s. (r, s)) (stop_mapping O))
  parse_value-Obeys {A} r =
      attempt-Obeys (keeps_or_stops O) (λ s. (r, s)) (stop_mapping O) (λ s. refl)
        (stop_mapping-Obeys A)

  rename-Obeys :
      (r : O.ItemRef) (name : String) → Obeys (keeps_or_stops O) (change (rename_item r name))
  rename-Obeys r name =
      change-Obeys (keeps_or_stops O) (rename_item r name) (L.rename_item-flow r name)

  crash-Obeys : (A : Type 0) (e : Error) → Obeys (keeps_or_stops O) {A = A} (crash e)
  unfolding Obeys crash
  crash-Obeys A e s = refl

  write_name-Obeys :
      (r : O.ItemRef) (n : Result String) → Obeys (keeps_or_stops O) (write_name O r n)
  unfolding write_name
  write_name-Obeys r (ok name) = rename-Obeys r name
  write_name-Obeys r (err e) =
      then-Obeys (keeps_or_stops O) (change (rename_item r "")) (stop_naming O e)
        (rename-Obeys r "") (stop_naming-Obeys (Unit {0}) e)
  write_name-Obeys r (panic e) = crash-Obeys (Unit {0}) e

  services_or_none-Obeys : Obeys (keeps_or_stops O) (attempt services (λ _. look (λ s. [])))
  services_or_none-Obeys =
      attempt-Obeys (keeps_or_stops O) services (λ _. look (λ s. [])) L.services-flow
        (λ _. look-Obeys (keeps_or_stops O) (λ s. []))

  add_item-Obeys :
      (i : BindingItem (Option Service)) → Obeys (keeps_or_stops O) (change (add_binding_item i))
  add_item-Obeys i =
      change-Obeys (keeps_or_stops O) (add_binding_item i) (L.add_binding_item-flow i)

  module _ (M : Machinery) (N : Templates NameData) (V : Templates (Dict Value)) where
    rename_from-Obeys :
        (r : O.ItemRef) (item : BindingItem (Option Service)) (sv : Service)
        → Obeys (keeps_or_stops O) (rename_from O M N r item sv)
    unfolding rename_from
    rename_from-Obeys r item sv =
        search (discipline_rules, parse_name-Obeys, write_name-Obeys) depth 9

    rename_one-Obeys :
        (x : O.ItemRef × BindingItem (Option Service))
        → Obeys (keeps_or_stops O) (rename_one O M N x)
    unfolding rename_one
    rename_one-Obeys (r, item) = by_source item.source
      where
        by_source :
            (o : Option Service)
            → Obeys
                (keeps_or_stops O)
                (elim o [ none ↦ done | some sv ↦ rename_from O M N r item sv ])
        by_source none = done-Obeys (keeps_or_stops O)
        by_source (some sv) = rename_from-Obeys r item sv

    handle_naming-Obeys : Obeys (keeps_or_stops O) (handle_naming O M N)
    unfolding handle_naming
    handle_naming-Obeys = search (discipline_rules, rename_one-Obeys, L.item_refs-flow) depth 9

    add_mapping-Obeys :
        (vars : Dict Value) (x : String × String)
        → Obeys (keeps_or_stops O) (add_mapping O V vars x)
    unfolding add_mapping
    add_mapping-Obeys vars (name, pattern) =
        search (discipline_rules, parse_value-Obeys, add_item-Obeys) depth 9

    handle_mapping-Obeys : Obeys (keeps_or_stops O) (handle_mapping O V)
    unfolding handle_mapping
    handle_mapping-Obeys =
        search (discipline_rules, add_mapping-Obeys, services_or_none-Obeys, L.binding_items-flow)
          depth 9

    -- Where the naming handler and the mapping handler run in a context whose flow control only its
    -- own operations change (Handlers.Lawful.IsLawful), each of them goes on, or panics, with the
    -- flow control of before, and where it returns early, the flow control is as before or stopped
    -- with an error.
    pub renaming-Stops :
        Obeys (keeps_or_stops O) (handle_naming O M N)
        × Obeys (keeps_or_stops O) (handle_mapping O V)
    renaming-Stops = (handle_naming-Obeys, handle_mapping-Obeys)
