-- ===== src/Value/Print.antt =====
-- The verb `%v` of package `fmt` on the values of an unstructured object.
use service_binding_operator.Base.{String, ◌<>◌, true, false, List, [], ◌∷◌}
use service_binding_operator.Base.Text.{join}
use service_binding_operator.Base.Sort.{sort_by_key}
use service_binding_operator.Value.{
  Value, null, text, number, bool, object, array, rows, Fields, end, field, Items, nil, item, Rows,
  empty, row,
}

-- The entries `key:value` in the order of the keys.
print_entries : List (String × String) → List String
print_entries [] = []
print_entries ((k, s) ∷ es) = (k <> (":" <> s)) ∷ print_entries es

print_map : List (String × String) → String
unfolding print_entries sort_by_key join
print_map es = "map[" <> (join " " (print_entries (sort_by_key es)) <> "]")

unfoldable mutual
  unfolding print_map join

  pub sprint : Value → String
  sprint null = "<nil>"
  sprint (text s) = s
  sprint (number n) = n
  sprint (bool true) = "true"
  sprint (bool false) = "false"
  sprint (object f) = print_map (sprint_fields f)
  sprint (array vs) = "[" <> (join " " (sprint_items vs) <> "]")
  sprint (rows rs) = "[" <> (join " " (sprint_rows rs) <> "]")

  pub sprint_fields : Fields → List (String × String)
  sprint_fields end = []
  sprint_fields (field k v f) = (k, sprint v) ∷ sprint_fields f

  pub sprint_items : Items → List String
  sprint_items nil = []
  sprint_items (item v vs) = sprint v ∷ sprint_items vs

  pub sprint_rows : Rows → List String
  sprint_rows empty = []
  sprint_rows (row f rs) = print_map (sprint_fields f) ∷ sprint_rows rs
