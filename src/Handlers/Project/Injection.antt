-- ===== src/Handlers/Project/Injection.antt =====
-- The project handlers that put a binding into the containers of the applications, and the one
-- that takes it out (pkg/reconcile/pipeline/handler/project/impl.go), over any context.
use service_binding_operator.Base.{
  String, ◌&&◌, not, Option, none, some, List, [], ◌∷◌, Error, error, Result, ok, err, panic, ◌==◌,
  is_empty, if◌then◌else◌,
}
use service_binding_operator.Machinery.{Machinery, EnvVar}
use service_binding_operator.Workload.Container.{
  MetaContainer, add_env_vars, add_env_from_var, add_volume, add_volume_mount, mount_path,
  remove_volume, remove_env_vars, remove_env_from_vars, remove_volume_mount,
}
use service_binding_operator.Pipeline.Flow.{retry_processing, stop_processing}
use service_binding_operator.Handlers.Act.{
  Act, ◌>>=◌, ◌>>◌, done, leave, change, look, call, attempt, when, each, crash,
}
use service_binding_operator.Handlers.Operations.{Operations, MetaPodSpec, EnvBinding}
use service_binding_operator.Handlers.Project.{stop_and_leave, applications_or_none}

abbrev pub nil_dereference : Error
nil_dereference = error "nil pointer dereference"

-- The loop that makes the variables.
unfoldable pub env_vars_of : (secret_name : String) → List EnvBinding → List EnvVar
env_vars_of secret_name [] = []
env_vars_of secret_name (e ∷ es) =
    record {
      name = e.var;
      value = "";
      secret_key_ref = some (record { secret = secret_name; key = e.name });
    }
    ∷ env_vars_of secret_name es

module _ (M : Machinery) (O : Operations) where
  open O use {
    State, Application, application, flow, set_flow, applications, binding_secret_name,
    binding_name, bind_as_files, env_bindings, unbind_requested, clean_annotations,
  }
  open application use {Place, secret_path, bindable_pods, edit, edit_at}

  -- Pods that are nil without an error are used all the same.
  abbrev pub known_pods : Application → State → Result (Option (MetaPodSpec Place)) × State
  known_pods app s =
      let (r, s') = bindable_pods app s in
      elim r [
        | ok none ↦ (panic nil_dereference, s')
        | ok (some pods) ↦ (ok (some pods), s')
        | err e ↦ (err e, s')
        | panic e ↦ (panic e, s')
      ]

  -- What is done where the pods of an application cannot be had: an application with a secret
  -- path is passed over.
  unfoldable pub without_pods : Application → Error → Act State (Option (MetaPodSpec Place))
  without_pods app e = do
    path ← look (secret_path app)
    if path == "" then stop_and_leave O e else look (λ s. none)

  -- The pods of an application, and what is done with them; `none` where it is passed over.
  unfoldable pub in_pods :
      (MetaPodSpec Place → Act State (Unit {0})) → Option (MetaPodSpec Place) → Act State (Unit {0})
  in_pods next none = done
  in_pods next (some pods) = next pods

  unfoldable pub with_pods :
      Application → (MetaPodSpec Place → Act State (Unit {0})) → Act State (Unit {0})
  unfolding without_pods
  with_pods app next = do pods ← attempt (known_pods app) (without_pods app); in_pods next pods

  unfoldable pub add_env_to :
      Application
      → (secret_name : String) → List EnvVar
      → MetaContainer × Place
      → Act State (Unit {0})
  add_env_to app secret_name vars (c, place) = do
    as_files ← look bind_as_files
    when (not as_files) (
        attempt
          (edit_at app place (add_env_from_var M c (record { secret_ref = some secret_name })))
          (stop_and_leave O))
    attempt (edit_at app place (add_env_vars M c vars)) (stop_and_leave O)

  unfoldable pub bindings_as_env : Act State (Unit {0})
  unfolding each add_env_to env_vars_of
  bindings_as_env = do
    envs ← look env_bindings
    as_files ← look bind_as_files
    when (as_files && is_empty envs) leave
    secret_name ← call binding_secret_name
    apps ← applications_or_none O
    each apps λ app.
        with_pods app
          λ pods. each pods.containers (add_env_to app secret_name (env_vars_of secret_name envs))

  unfoldable pub mount_in :
      Application → (name : String) → MetaContainer × Place → Act State (Unit {0})
  mount_in app name (c, place) = do
    binding ← look binding_name
    path ← attempt (edit_at app place (mount_path M c binding)) (stop_and_leave O)
    attempt (edit_at app place (add_volume_mount M c (record { name = name; mount_path = path })))
        (stop_and_leave O)

  unfoldable pub bindings_as_files : Act State (Unit {0})
  unfolding each mount_in
  bindings_as_files = do
    as_files ← look bind_as_files
    when (not as_files) leave
    secret_name ← call binding_secret_name
    name ← look binding_name
    apps ← applications_or_none O
    each apps λ app. with_pods app λ pods. do
      attempt
          (edit app (add_volume M pods.volume (record { name = name; secret_name = secret_name })))
          (stop_and_leave O)
      each pods.containers (mount_in app name)

  unfoldable pub stop_and_return {ℓ} : {A : Type ℓ} → Act State A
  stop_and_return = change (λ s. set_flow (stop_processing (flow s)) s) >> leave

  unfoldable pub unbind_container :
      Application
      → (secret_name name : String) → List EnvBinding
      → MetaContainer × Place
      → Act State (Unit {0})
  unfolding each
  unbind_container app secret_name name envs (c, place) = do
    each envs λ e. attempt (edit_at app place (remove_env_vars M c e.name)) (stop_and_leave O)
    attempt (edit_at app place (remove_env_from_vars M c secret_name)) (stop_and_leave O)
    attempt (edit_at app place (remove_volume_mount M c name)) (stop_and_leave O)

  -- The pods of an application that is unbound. Their error is dropped, and then they are nil.
  unfoldable pub pods_to_unbind : Application → Act State (MetaPodSpec Place)
  pods_to_unbind app = do
    pods ← attempt (bindable_pods app) (λ e. crash nil_dereference)
    elim pods [ none ↦ stop_and_return | some p ↦ look (λ s. p) ]

  unfoldable pub unbind_application :
      (secret_name name : String) → List EnvBinding → Application → Act State (Unit {0})
  unfolding each unbind_container pods_to_unbind
  unbind_application secret_name name envs app = do
    pods ← pods_to_unbind app
    attempt (edit app (remove_volume M pods.volume name)) (stop_and_leave O)
    each pods.containers (unbind_container app secret_name name envs)

  -- The end of `Unbind`, where every application is unbound.
  unfoldable pub clean : Act State (Unit {0})
  clean = do
    cleaned ← call clean_annotations
    change λ s.
        set_flow (if cleaned then retry_processing none (flow s) else stop_processing (flow s)) s

  -- `Unbind` behind its first test.
  unfoldable pub unbind_all : Act State (Unit {0})
  unfolding each unbind_application clean
  unbind_all = do
    apps ← attempt applications (λ _. stop_and_return)
    when (is_empty apps) stop_and_return
    secret_name ← call binding_secret_name
    name ← look binding_name
    envs ← look env_bindings
    when (secret_name == "") stop_and_return
    each apps (unbind_application secret_name name envs)
    clean

  unfoldable pub unbind : Act State (Unit {0})
  unfolding unbind_all
  unbind = do requested ← look unbind_requested; when (not requested) leave; unbind_all
