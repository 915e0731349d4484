-- ===== src/Binding/Safety.antt =====
-- Panics on the way from an annotation to binding values (`build` and `apply`).
use service_binding_operator.Base.{◌≡◌, true, ◌||◌, none, some, ◌==◌}
use service_binding_operator.Base.Dict.{Dict}
use service_binding_operator.Value.{Value}
use service_binding_operator.Machinery.{Machinery}
use service_binding_operator.Binding.Jsonpath.{Jsonpath}
use service_binding_operator.Binding.Model.{Model, secret_object_type, config_map_object_type}
use service_binding_operator.Binding.Definition.{
  Definition, string_from_data_field, map_from_data_field,
}
use service_binding_operator.Binding.Panics.{IsTotalReader}

-- A definition that `Build` may give: its type of other object is one that `Apply` reads.
abbrev IsReadable : Definition → Type 0
IsReadable (string_from_data_field (some r) t o l k) =
    IsTotalReader r × ((t == secret_object_type || t == config_map_object_type) ≡ true)
IsReadable (string_from_data_field none t o l k) = Unit {0}
IsReadable (map_from_data_field (some r) t o v l) =
    IsTotalReader r × ((t == secret_object_type || t == config_map_object_type) ≡ true)
IsReadable (map_from_data_field none t o v l) = Unit {0}
IsReadable _ = Unit {0}
