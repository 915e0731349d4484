-- ===== src/Context/State.antt =====
-- The state of a context (`impl`, `bindingImpl` and `specImpl` of
-- pkg/reconcile/pipeline/context), and what it takes from other packages and from the cluster.
use service_binding_operator.Base.{
  String, ℕ, Bool, Option, List, Error, Result, ok, err, panic, if◌then◌else◌,
}
use service_binding_operator.Base.Dict.{Dict, insert}
use service_binding_operator.Value.{Object}
use service_binding_operator.Machinery.{Machinery}
use service_binding_operator.Apis.Conditions.{Condition}
use service_binding_operator.Apis.Common.{requester}
use service_binding_operator.Binding.Jsonpath.{Jsonpath}
use service_binding_operator.Binding.Registry.{Registry}
use service_binding_operator.Mapping.{Parser, WorkloadMapping}
use service_binding_operator.Mapping.Validation.{Mapping, GroupVersionResource}
use service_binding_operator.Pipeline.Gathered.{Gathered}
use service_binding_operator.Context.{Meta, Spec}
use service_binding_operator.Context.Lookup.{RestMapper}
use service_binding_operator.Context.Client.{Client, UserInfo, can_perform}
use service_binding_operator.Context.Service.{Accessors, Service}
use service_binding_operator.Context.Workloads.{Application, FindResults}

-- A binding as a document: the secret of the status is empty where there is none.
pub record ServiceBinding : Type 0 where
  pub meta : Meta
  pub spec : Spec
  pub status_secret : String
  pub status_conditions : List Condition

-- The secret that the context makes, with its owner if the binding has a UID.
pub record Secret : Type 0 where
  pub namespace : String
  pub name : String
  pub string_data : Dict String
  pub owner : Option String

-- The other packages: the clients, the converter and the codecs, package `jsonpath`, the SHA-256
-- digest, `reflect.DeepEqual`, `meta.SetStatusCondition` and the rate limiter.
pub record Environment : Type 1 where
  pub client : Client
  pub mapper : RestMapper
  pub machinery : Machinery
  pub accessors : Accessors
  pub jsonpath : Jsonpath
  pub parse : Parser
  pub find_results : FindResults
  pub registry : Registry
  pub unmarshal_mapping : String → Result Mapping
  pub mapping_of_object : Object → Result Mapping
  pub marshal_user : UserInfo → String
  pub unmarshal_user : String → Option UserInfo
  pub set_annotations : Dict String → Object → Object
  pub digest : String → String
  pub deep_equal : Object → Object → Bool
  pub write_binding : ServiceBinding → Result Object
  pub write_secret : Secret → Result Object
  pub to_unstructured : Object → Result Object
  pub set_status_condition : Condition → List Condition → List Condition
  pub rate_limit : Meta → ℕ

module _ (E : Environment) where
  open E use {client, marshal_user, unmarshal_user}
  open client use {World}

  -- `impl` without its flow control, with the binding and the cluster. A service is known by its
  -- number.
  pub record Impl : Type 0 where
    pub world : World
    pub binding : ServiceBinding
    pub services : List (Service World)
    pub applications : List Application
    pub gathered : Gathered (Option ℕ)
    pub conditions : Dict Condition
    pub resource_mapping : Option WorkloadMapping

  abbrev pub Run {ℓ} : Type ℓ → Type ℓ
  Run A = Impl → Result A × Impl

  infixl 5 ◌>>=◌ ◌>>◌
  unfoldable pub ◌>>=◌ {ℓ κ} : {A : Type ℓ} {B : Type κ} → Run A → (A → Run B) → Run B
  ◌>>=◌ m f i =
      let (r, i') = m i in elim r [ ok a ↦ f a i' | err e ↦ (err e, i') | panic e ↦ (panic e, i') ]

  unfoldable pub ◌>>◌ {ℓ κ} : {A : Type ℓ} {B : Type κ} → Run A → Run B → Run B
  m >> k = m >>= λ _. k

  -- A step that does not change the context.
  unfoldable pub ask {ℓ} : {A : Type ℓ} → (Impl → Result A) → Run A
  ask f i = (f i, i)

  unfoldable pub change : (Impl → Impl) → Run (Unit {0})
  change f i = (ok tt, f i)

  -- `requester`
  unfoldable pub user_of : Impl → Option UserInfo
  unfolding requester
  user_of i = requester marshal_user unmarshal_user i.binding.meta.annotations

  -- `if !i.canPerform(…) { return err }`
  unfoldable pub require :
      GroupVersionResource → (name namespace verb : String) → (refused : Error) → Run (Unit {0})
  unfolding user_of can_perform
  require gvr name namespace verb refused i =
      if can_perform client (user_of i) gvr name namespace verb i.world
      then (ok tt, i)
      else (err refused, i)

  -- `SetCondition`
  unfoldable pub set_condition : Condition → Impl → Impl
  unfolding insert
  set_condition c i = record i { conditions = insert c.condition_type c i.conditions }
