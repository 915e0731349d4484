-- ===== src/Context/Client.antt =====
-- The clients of the cluster that a context has, as parameters, and what it reads on behalf of the
-- requester of the binding (`canPerform`, `ReadSecret` and `ReadConfigMap` of
-- pkg/reconcile/pipeline/context/impl.go).
use service_binding_operator.Base.{
  String, Bool, true, false, Option, none, some, List, [], ◌∷◌, Error, errorf, Result, ok, err,
  if◌then◌else◌,
}
use service_binding_operator.Base.Dict.{Dict}
use service_binding_operator.Value.{Object}
use service_binding_operator.Mapping.Validation.{GroupVersionResource}

-- `authv1.UserInfo`
pub record UserInfo : Type 0 where
  pub username : String
  pub groups : List String

-- `ResourceAttributes` of a review
pub record Attributes : Type 0 where
  pub resource : GroupVersionResource
  pub namespace : String
  pub name : String
  pub verb : String

-- What `Get` and `List` give: a value, an error for which `IsNotFound` holds, or another error.
pub data Fetched (A : Type 0) : Type 0 where
  fetched : A → Fetched A
  absent : Error → Fetched A
  failed : Error → Fetched A

abbrev pub fetched_or_error : {A : Type 0} → Fetched A → Result A
fetched_or_error (fetched o) = ok o
fetched_or_error (absent e) = err e
fetched_or_error (failed e) = err e

-- The dynamic client and the client of access reviews. Reads and reviews leave the cluster as it
-- is.
pub record Client : Type 1 where
  pub World : Type 0
  pub get : GroupVersionResource → (namespace name : String) → World → Fetched Object
  pub list :
      GroupVersionResource
      → (namespace : String) → (selector : Dict String) → World
      → Fetched (List Object)
  pub create : GroupVersionResource → (namespace : String) → Object → World → Option Error × World
  pub update : GroupVersionResource → (namespace : String) → Object → World → Option Error × World
  pub update_status :
      GroupVersionResource → (namespace : String) → Object → World → Option Error × World
  pub review : UserInfo → Attributes → World → Result Bool

abbrev pub config_maps : GroupVersionResource
config_maps = record { group = ""; version = "v1"; resource = "configmaps" }

abbrev pub secrets : GroupVersionResource
secrets = record { group = ""; version = "v1"; resource = "secrets" }

module _ (C : Client) where
  open C use {World, get, review}

  -- `canPerform`. A review that fails allows nothing.
  unfoldable pub can_perform :
      Option UserInfo → GroupVersionResource → (name namespace verb : String) → World → Bool
  can_perform none gvr name namespace verb w = true
  can_perform (some user) gvr name namespace verb w =
      elim (review user (record { resource = gvr; namespace = namespace; name = name; verb = verb })
        w) [ ok allowed ↦ allowed | _ ↦ false ]

  -- A read that needs the permission to get the object.
  unfoldable pub read_allowed :
      Option UserInfo
      → GroupVersionResource
      → (refused : Error) → (namespace name : String) → World
      → Result Object
  unfolding can_perform
  read_allowed user gvr refused namespace name w =
      if can_perform user gvr name namespace "get" w
      then fetched_or_error (get gvr namespace name w)
      else err refused

  unfoldable pub read_config_map :
      Option UserInfo → (namespace name : String) → World → Result Object
  unfolding read_allowed
  read_config_map user namespace name w =
      read_allowed user config_maps
        (errorf "cannot read configmap %s in namespace %s" (name ∷ namespace ∷ [])) namespace name w

  unfoldable pub read_secret : Option UserInfo → (namespace name : String) → World → Result Object
  unfolding read_allowed
  read_secret user namespace name w =
      read_allowed user secrets
        (errorf "cannot read secret %s in namespace %s" (name ∷ namespace ∷ [])) namespace name w
