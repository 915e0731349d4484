-- ===== src/Context/Workloads.antt =====
-- An application of a binding (pkg/reconcile/pipeline/context/application.go). The containers are
-- references into the object of the application: a place is the way to one.
pub mod Places
use service_binding_operator.Base.{
  String, ℕ, suc, Bool, true, false, ◌||◌, not, Option, none, some, List, [], ◌∷◌, ◌++◌, Error,
  errorf, error, Result, ok, err, panic, ◌>>=◌, ◌==◌, is_empty, any, if◌then◌else◌,
}
use service_binding_operator.Base
use service_binding_operator.Value.{
  Value, object, array, Items, nil, item, Object, object_of, entries,
}
use service_binding_operator.Machinery.{Machinery, Nested, found, missing, invalid}
use service_binding_operator.Workload.Container.{MetaContainer}
use service_binding_operator.Workload.Edit.{Edit}
use service_binding_operator.Mapping.{Node, WorkloadContainer, WorkloadMapping}
use service_binding_operator.Mapping.Validation.{GroupVersionResource}
use service_binding_operator.Handlers.Operations.{MetaPodSpec}
use service_binding_operator.Context.{BindingPath}
use service_binding_operator.Context.Workloads.Places.{Place, Step, key, index, get_at, put_at}

-- The fields of `application`; the copy that is changed is nil until it is asked for.
pub record Application : Type 0 where
  pub gvr : GroupVersionResource
  pub persisted_resource : Object
  pub resource : Option Object
  pub binding_path : Option BindingPath
  pub bindable_container_names : List String
  pub resource_mapping : WorkloadMapping

unfoldable pub secret_path : Application → String
secret_path a = elim a.binding_path [ none ↦ "" | some p ↦ p.secret_path ]

-- `Resource`, as the object that it gives.
abbrev pub current : Application → Object
current a = elim a.resource [ none ↦ a.persisted_resource | some o ↦ o ]

-- `Resource`, as what it does to the application.
unfoldable pub touch : Application → Application
touch a = record a { resource = some (current a) }

-- `SetMapping`
abbrev pub set_mapping : WorkloadMapping → Application → Application
set_mapping m a = record a { resource_mapping = m }

-- `IsUpdated`, given `reflect.DeepEqual`: a copy that is nil is not equal to the object.
unfoldable pub is_updated : (deep_equal : Object → Object → Bool) → Application → Bool
is_updated deep_equal a = elim a.resource [
  | none ↦ true
  | some o ↦ not (deep_equal a.persisted_resource o)
]

-- `FindResults` of the path of a container: the places of the values that it finds.
abbrev pub FindResults : Type 0
FindResults = Node → Object → Result (List (List Place))

abbrev not_suitable : Error
not_suitable = error "Unable to convert data to suitable format: %v, received type %v"

module _ (M : Machinery) where
  -- `intoMetaContainer`; where the name is not found, also by an error, it is empty.
  unfoldable pub into_meta_container : WorkloadContainer → Object → MetaContainer
  into_meta_container c data' = record {
    name = elim (M.nested_string data' c.name) [ found n ↦ n | _ ↦ "" ];
    env = c.env;
    env_from = c.env_from;
    volume_mount = c.volume_mounts;
  }

  -- A container counts if no names are given, or its name is one of them.
  abbrev if_bindable : (names : List String) → MetaContainer → Place → List (MetaContainer × Place)
  if_bindable names mc place =
      if is_empty names || any (λ n. n == mc.name) names then (mc, place) ∷ [] else []

  -- The containers of a slice.
  unfoldable pub containers_in :
      (names : List String)
      → WorkloadContainer
      → Place
      → ℕ
      → Items
      → Result (List (MetaContainer × Place))
  unfolding into_meta_container any
  containers_in names c place i nil = ok []
  containers_in names c place i (item (object f) vs) =
      containers_in names c place (suc i) vs >>= λ rest.
      ok (if_bindable names (into_meta_container c (entries f)) (place ++ (index i ∷ [])) ++ rest)
  containers_in names c place i (item _ vs) = err not_suitable

  -- The containers of a value that was found: a slice of maps, or a map.
  unfoldable pub containers_at :
      (names : List String)
      → WorkloadContainer
      → Place
      → Option Value
      → Result (List (MetaContainer × Place))
  unfolding containers_in into_meta_container any
  containers_at names c place (some (array vs)) = containers_in names c place 0 vs
  containers_at names c place (some (object f)) =
      ok (if_bindable names (into_meta_container c (entries f)) place)
  containers_at names c place _ = err not_suitable

  unfoldable pub containers_of_places :
      (names : List String)
      → WorkloadContainer
      → Object
      → List Place
      → Result (List (MetaContainer × Place))
  unfolding containers_at get_at
  containers_of_places names c o [] = ok []
  containers_of_places names c o (p ∷ ps) = do
    here ← containers_at names c p (get_at p (object_of o))
    rest ← containers_of_places names c o ps
    ok (here ++ rest)

  -- `pathData[0]`
  abbrev first_results : List (List Place) → Result (List Place)
  first_results [] = panic (error "index out of range")
  first_results (r ∷ rs) = ok r

  module _ (find_results : FindResults) where
    -- The loop over the containers of the mapping. A path that cannot be followed is passed over.
    unfoldable pub filtered_containers :
        (names : List String)
        → Object
        → List WorkloadContainer
        → Result (List (MetaContainer × Place))
    unfolding containers_of_places
    filtered_containers names o [] = ok []
    filtered_containers names o (c ∷ cs) =
        let rest = filtered_containers names o cs in
        elim (find_results c.path o) [
          | err _ ↦ rest
          | panic e ↦ panic e
          | ok found_data ↦ do
            places ← first_results found_data
            here ← containers_of_places names c o places
            others ← rest
            ok (here ++ others)
        ]

    abbrev pods_of : List String → List (MetaContainer × Place) → Result (MetaPodSpec Place)
    pods_of volume [] =
        err (error "no containers found in application resource: data: %v, names: %v")
    pods_of volume (c ∷ cs) = ok (record { containers = c ∷ cs; volume = volume })

    -- `BindablePods`
    unfoldable pub bindable_pods : Application → Result (MetaPodSpec Place) × Application
    unfolding filtered_containers touch
    bindable_pods a = (
      filtered_containers a.bindable_container_names (current a) a.resource_mapping.containers
          >>= λ cs. pods_of a.resource_mapping.volume cs,
      touch a,
    )

-- An edit of the object of the application.
unfoldable pub edit_resource : {A : Type 0} → Edit A → Application → Result A × Application
edit_resource e a = let (r, o) = e (current a) in (r, record a { resource = some o })

-- An edit of the data of a container.
unfoldable pub edit_container : {A : Type 0} → Place → Edit A → Application → Result A × Application
unfolding get_at put_at
edit_container p e a = elim (get_at p (object_of (current a))) [
  | some (object f) ↦
      let (r, o) = e (entries f) in (r, record a { resource = some (put_at p o (current a)) })
  | _ ↦ (panic (error "nil pointer dereference"), a)
]
