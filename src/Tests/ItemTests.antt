-- ===== src/Tests/ItemTests.antt =====
-- The items of a secret with two data.
use service_binding_operator.Base.{String, ◌≡◌, refl, some, List, [], ◌∷◌, ok}
use service_binding_operator.Base.Base64.{decode_string}
use service_binding_operator.Base.Dict.{merge, insert}
use service_binding_operator.Value.{text, Object, object_of}
use service_binding_operator.Pipeline.Items.{BindingItem}
use service_binding_operator.Pipeline.SecretBacked.{
  secret_backed, SecretBackedBindings, items_of_secret,
}
use service_binding_operator.Pipeline.SecretBacked.Cached.{AllDecoded, items_of_secret_lem}
use service_binding_operator.Value.Print.{sprint}
use service_binding_operator.Pipeline.Gathered.{Gathered, binding_item_map}
use service_binding_operator.Pipeline.Gathered.Settled.{binding_item_map_again}
use service_binding_operator.Tests.Cluster.{machinery}

abbrev secret : Object
secret = ("data", object_of (("user", text "cm9vdA==") ∷ ("password", text "cGFzcw==") ∷ [])) ∷ []

abbrev items : List (BindingItem String)
items =
    record { name = "user"; value = text "root"; source = "db" }
    ∷ record { name = "password"; value = text "pass"; source = "db" }
    ∷ []

abbrev cached : SecretBackedBindings String
cached = record { service = "db"; secret = secret; items = some items }

items_of_secret_lem_example :
    AllDecoded "db" (("user", "cm9vdA==") ∷ ("password", "cGFzcw==") ∷ []) items
    × (items_of_secret machinery cached ≡ (ok items, cached))
unfolding items_of_secret machinery decode_string
items_of_secret_lem_example =
    items_of_secret_lem machinery "db" secret (("user", "cm9vdA==") ∷ ("password", "cGFzcw==") ∷ [])
      items cached refl refl

-- A context with the bindings of the secret, not read yet.
abbrev fresh : Gathered String
fresh = record { binding_items = []; bindings = secret_backed "db" secret ∷ [] }

abbrev settled : Gathered String
settled = record { binding_items = []; bindings = cached ∷ [] }

binding_item_map_again_example :
    binding_item_map machinery settled ≡ (("user", "root") ∷ ("password", "pass") ∷ [], settled)
unfolding binding_item_map items_of_secret machinery decode_string merge insert sprint
binding_item_map_again_example = binding_item_map_again machinery fresh ((items, refl), tt)
