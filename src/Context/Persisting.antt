-- ===== src/Context/Persisting.antt =====
-- What a context writes to the cluster: the binding with its conditions, the secret, and the
-- applications (`persistBinding`, `PersistSecret` and `Close` of
-- pkg/reconcile/pipeline/context/impl.go).
pub mod Kept
pub mod Taken
pub mod Naming
pub mod Ready
use service_binding_operator.Base.{
  String, Bool, Option, none, some, List, [], ◌∷◌, Error, Result, ok, err, panic, ◌==◌, is_empty,
  if◌then◌else◌,
}
use service_binding_operator.Base.Dict.{Dict}
use service_binding_operator.Value.{Object}
use service_binding_operator.Apis.Conditions.{
  Condition, conditions, not_binding_ready, binding_ready, reason, msg,
}
use service_binding_operator.Mapping.Validation.{GroupVersionResource}
use service_binding_operator.Pipeline.Gathered.{binding_item_map, binding_secret_name}
use service_binding_operator.Context.{Spec, operator_spec, service_spec, unbind_requested}
use service_binding_operator.Context.Client.{fetched, absent, failed, secrets}
use service_binding_operator.Context.Workloads.{Application, current, is_updated}
use service_binding_operator.Context.State.{
  Environment, Impl, Run, Secret, ◌>>=◌, ask, change, set_condition,
}

abbrev pub binding_gvr : Spec → GroupVersionResource
binding_gvr (operator_spec s) = record {
  group = "binding.operators.coreos.com";
  version = "v1alpha1";
  resource = "servicebindings";
}
binding_gvr (service_spec s) = record {
  group = "servicebinding.io";
  version = "v1beta1";
  resource = "servicebindings";
}

abbrev pub as_result : Option Error → Result (Unit {0})
as_result none = ok tt
as_result (some e) = err e

abbrev pub ready : Condition
ready = reason "ApplicationsBound" (binding_ready conditions)

abbrev pub processing_error : Error → Condition
processing_error e = msg e (reason "ProcessingError" (not_binding_ready conditions))

module _ (E : Environment) where
  open E use {client, machinery}
  open client use {World}

  -- A call that writes to the cluster.
  unfoldable pub write : (World → Option Error × World) → Run E (Unit {0})
  write f i = let (e, w) = f i.world in (as_result e, record i { world = w })

  abbrev put_conditions : Dict Condition → List Condition → List Condition
  put_conditions [] cs = cs
  put_conditions ((k, c) ∷ rest) cs = put_conditions rest (E.set_status_condition c cs)

  abbrev pub write_conditions : Impl E → Impl E
  write_conditions i = record i {
    binding = record i.binding {
      status_conditions = put_conditions i.conditions i.binding.status_conditions;
    };
  }

  -- The end of `persistBinding`, for a binding that the cluster has.
  unfoldable pub persist_stored : Run E (Unit {0})
  unfolding write ask change
  persist_stored i =
      ◌>>=◌ E (change E write_conditions)
        (λ _. ◌>>=◌ E (ask E (λ j. E.write_binding j.binding)) λ u.
          ◌>>=◌ E
            (write (client.update_status (binding_gvr i.binding.spec) i.binding.meta.namespace u))
            λ _. write (client.update (binding_gvr i.binding.spec) i.binding.meta.namespace u))
        i

  -- `persistBinding`
  unfoldable pub persist_binding : Run E (Unit {0})
  unfolding persist_stored
  persist_binding i = if i.binding.meta.uid == "" then (ok tt, i) else persist_stored i

  -- `bindingSecretName`, with what it keeps of the items
  unfoldable pub secret_name : Impl E → (String × Bool) × Impl E
  unfolding binding_secret_name unbind_requested
  secret_name i =
      let m = i.binding.meta in
      let unbind = if unbind_requested m then some i.binding.status_secret else none in
      let (r, g) = binding_secret_name machinery E.digest unbind m.name m.namespace i.gathered in
      (r, record i { gathered = g })

  abbrev item_map : Impl E → Dict String × Impl E
  item_map i = let (d, g) = binding_item_map machinery i.gathered in (d, record i { gathered = g })

  abbrev owner_of : (uid : String) → Option String
  owner_of uid = if uid == "" then none else some uid

  abbrev pub secret_of : Impl E → (name : String) → Dict String → Secret
  secret_of i name d = record {
    namespace = i.binding.meta.namespace;
    name = name;
    string_data = d;
    owner = owner_of i.binding.meta.uid;
  }

  -- The secret is created if there is none, and otherwise updated.
  unfoldable pub store_secret : (name : String) → Object → Run E (Unit {0})
  unfolding write
  store_secret name u i =
      let namespace = i.binding.meta.namespace in
      elim (client.get secrets namespace name i.world) [
        | fetched _ ↦ write (client.update secrets namespace u) i
        | absent _ ↦ write (client.create secrets namespace u) i
        | failed e ↦ (err e, i)
      ]

  -- `persistSecret`: the name is empty where there is no secret to name.
  unfoldable pub persist_named : (name : String) → Dict String → Run E String
  unfolding store_secret ask
  persist_named name d i =
      if is_empty d
      then (ok "", i)
      else ◌>>=◌ E (ask E (λ j. E.write_secret (secret_of j name d)))
          (λ u. ◌>>=◌ E (store_secret name u) λ _. ask E (λ _. ok name)) i

  unfoldable pub persist_data : Run E String
  unfolding secret_name persist_named binding_item_map
  persist_data i =
      let ((name, exists), i') = secret_name i in
      let (d, i'') = item_map i' in if exists then (ok name, i') else persist_named name d i''

  -- The condition for an error, and the binding with it; an error of that is dropped.
  unfoldable pub report : (why : String) → Error → Impl E → Impl E
  unfolding persist_binding set_condition
  report why e i =
      (persist_binding (set_condition E (msg e (reason why (not_binding_ready conditions))) i)).1

  abbrev pub set_status_secret : String → Impl E → Impl E
  set_status_secret name i = record i { binding = record i.binding { status_secret = name } }

  -- `PersistSecret`
  unfoldable pub persist_secret : Run E (Unit {0})
  unfolding persist_data report
  persist_secret i =
      let (r, i') = persist_data i in
      elim r [
        | ok name ↦ (ok tt, if name == "" then i' else set_status_secret name i')
        | err e ↦ (err e, report "ErrorPersistingSecret" e i')
        | panic e ↦ (panic e, i')
      ]

  -- The update of an application that counts as updated.
  unfoldable pub update_application : Application → Run E (Unit {0})
  unfolding write report
  update_application a i = elim (E.to_unstructured (current a)) [
    | err e ↦ (err e, i)
    | panic e ↦ (panic e, i)
    | ok clone ↦
        let (r, i') = write (client.update a.gvr i.binding.meta.namespace clone) i in
        elim r [
          | ok _ ↦ (ok tt, i')
          | err e ↦ (err e, report "ApplicationUpdateError" e i')
          | panic e ↦ (panic e, i')
        ]
  ]

  -- The loop over the applications.
  unfoldable pub update_applications : List Application → Run E (Unit {0})
  unfolding is_updated update_application ask
  update_applications [] = ask E (λ _. ok tt)
  update_applications (a ∷ as') =
      if is_updated E.deep_equal a
      then ◌>>=◌ E (update_application a) (λ _. update_applications as')
      else update_applications as'

  -- `Close`, from the error of the flow control
  unfoldable pub close : Option Error → Run E (Unit {0})
  unfolding persist_binding update_applications set_condition
  close (some e) i = persist_binding (set_condition E (processing_error e) i)
  close none i =
      ◌>>=◌ E (update_applications i.applications)
        (λ _ j. persist_binding (set_condition E ready j)) i
