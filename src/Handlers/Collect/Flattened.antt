-- ===== src/Handlers/Collect/Flattened.antt =====
-- `collectItems` against a description of a nested value as its leaves with the keys above them.
use service_binding_operator.Base.{
  String, ◌<>◌, ℕ, suc, ◌≡◌, refl, sym, ap, ◌∙◌, Bool, true, false, ◌&&◌, List, [], ◌∷◌, ◌++◌,
}
use service_binding_operator.Base.Decimal.{decimal}
use service_binding_operator.Value.{
  Value, null, text, number, bool, object, array, rows, Fields, end, field, Items, nil, item, Rows,
  empty, row,
}
use service_binding_operator.Handlers.Act.{Act, goes_on, then-goes_on, ◌>>=◌, ◌>>◌, done, change}
use service_binding_operator.Handlers.Operations.{Operations}
use service_binding_operator.Handlers.Collect.Names.{path_name, named, named_lem, append_assoc}
use service_binding_operator.Handlers.Collect.{
  map_prefix, indexed, add_item, collect_items, collect_fields, collect_elements, collect_rows,
}

-- A leaf with the keys that lead to it, the first one apart.
pub record Leaf : Type 0 where
  pub first : String
  pub below : List String
  pub value : Value

abbrev pub leaf : String → List String → Value → Leaf
leaf k p v = record { first = k; below = p; value = v }

abbrev pub under : String → List Leaf → List Leaf
under k [] = []
under k (l ∷ ls) = leaf k (l.first ∷ l.below) l.value ∷ under k ls

abbrev pub element_leaves : String → ℕ → Items → List Leaf
element_leaves k i nil = []
element_leaves k i (item v vs) = leaf (indexed k i) [] v ∷ element_leaves k (suc i) vs

abbrev pub row_leaves : String → ℕ → Rows → List Leaf
row_leaves k i empty = []
row_leaves k i (row f rs) = leaf (indexed k i) [] (object f) ∷ row_leaves k (suc i) rs

-- The leaves of the value at a key: maps are entered at any depth, and a slice has its elements
-- at the key with their numbers.
unfoldable mutual
  pub leaves : String → Value → List Leaf
  leaves k (object f) = under k (leaves_of f)
  leaves k (array vs) = element_leaves k 0 vs
  leaves k (rows rs) = row_leaves k 0 rs
  leaves k null = []
  leaves k (text t) = leaf k [] (text t) ∷ []
  leaves k (number n) = leaf k [] (number n) ∷ []
  leaves k (bool b) = leaf k [] (bool b) ∷ []

  pub leaves_of : Fields → List Leaf
  leaves_of end = []
  leaves_of (field k v f) = leaves k v ++ leaves_of f

-- No map in the value has a null in it, and it is none itself.
unfoldable mutual
  pub no_null : Value → Bool
  no_null (object f) = no_null_in f
  no_null null = false
  no_null _ = true

  pub no_null_in : Fields → Bool
  no_null_in end = true
  no_null_in (field k v f) = no_null v && no_null_in f

module _ (O : Operations) where
  open O use {State, Service}

  put : Service → String → List Leaf → State → State
  put sv q [] s = s
  put sv q (l ∷ ls) s = put sv q ls (add_item O sv (named q l.first l.below) l.value s)

  -- The context with an item for each leaf, in the order of the leaves.
  unfoldable pub add_leaves : Service → List Leaf → State → State
  add_leaves sv [] s = s
  add_leaves sv (l ∷ ls) s = add_leaves sv ls (add_item O sv (path_name l.first l.below) l.value s)

  put-append :
      (sv : Service) (q : String) (ls ms : List Leaf) (s : State)
      → put sv q (ls ++ ms) s ≡ put sv q ms (put sv q ls s)
  unfolding put
  put-append sv q [] ms s = refl
  put-append sv q (l ∷ ls) ms s = put-append sv q ls ms _

  -- Leaves under a key are put with the prefix for that key.
  put-under :
      (sv : Service) (q k : String) (ls : List Leaf) (s : State)
      → put sv q (under k ls) s ≡ put sv (map_prefix q k) ls s
  unfolding put named
  put-under sv q k [] s = refl
  put-under sv q k (l ∷ ls) s = put-under sv q k ls _

  put_lem : (sv : Service) (ls : List Leaf) (s : State) → put sv "" ls s ≡ add_leaves sv ls s
  unfolding put add_leaves
  put_lem sv [] s = refl
  put_lem sv (l ∷ ls) s =
      put_lem sv ls _
      ∙ ap (λ (n : String). add_leaves sv ls (add_item O sv n l.value s))
          (named_lem l.first l.below)

  put-elements :
      (sv : Service) (q k : String) (i : ℕ) (vs : Items) (s : State)
      → collect_elements O sv (q <> k) i vs s ≡ (goes_on tt, put sv q (element_leaves k i vs) s)
  unfolding put named done change ◌>>◌ ◌>>=◌
  put-elements sv q k i nil s = refl
  put-elements sv q k i (item v vs) s =
      put-elements sv q k (suc i) vs (add_item O sv (indexed (q <> k) i) v s)
      ∙ ap
          (λ (n : String).
            (goes_on tt, put sv q (element_leaves k (suc i) vs) (add_item O sv n v s)))
          (append_assoc q k ("_" <> decimal i))

  put-rows :
      (sv : Service) (q k : String) (i : ℕ) (rs : Rows) (s : State)
      → collect_rows O sv (q <> k) i rs s ≡ (goes_on tt, put sv q (row_leaves k i rs) s)
  unfolding put named done change ◌>>◌ ◌>>=◌
  put-rows sv q k i empty s = refl
  put-rows sv q k i (row f rs) s =
      put-rows sv q k (suc i) rs (add_item O sv (indexed (q <> k) i) (object f) s)
      ∙ ap
          (λ (n : String).
            (goes_on tt, put sv q (row_leaves k (suc i) rs) (add_item O sv n (object f) s)))
          (append_assoc q k ("_" <> decimal i))

  put-then :
      (sv : Service) (q : String) (ls ms : List Leaf) (m k : Act State (Unit {0})) (s : State)
      → m s ≡ (goes_on tt, put sv q ls s)
      → k (put sv q ls s) ≡ (goes_on tt, put sv q ms (put sv q ls s))
      → (m >> k) s ≡ (goes_on tt, put sv q (ls ++ ms) s)
  put-then sv q ls ms m k s h h' =
      then-goes_on m k s (put sv q ls s) h
      ∙ (h' ∙ ap (λ (t : State). (goes_on tt, t)) (sym (put-append sv q ls ms s)))

  and-true : (a b : Bool) → (a && b) ≡ true → (a ≡ true) × (b ≡ true)
  and-true true b h = (refl, h)
  and-true false b h = cc

  mutual
    unfolding collect_items leaves no_null put named change done

    collect_items-put :
        (q k : String) (sv : Service) (v : Value) (s : State)
        → no_null v ≡ true
        → collect_items O q sv k v s ≡ (goes_on tt, put sv q (leaves k v) s)
    collect_items-put q k sv (object f) s h =
        collect_fields-put (map_prefix q k) (q <> k) sv f s h
        ∙ ap (λ (t : State). (goes_on tt, t)) (sym (put-under sv q k (leaves_of f) s))
    collect_items-put q k sv (array vs) s h = put-elements sv q k 0 vs s
    collect_items-put q k sv (rows rs) s h = put-rows sv q k 0 rs s
    collect_items-put q k sv null s h = cc
    collect_items-put q k sv (text t) s h = refl
    collect_items-put q k sv (number n) s h = refl
    collect_items-put q k sv (bool b) s h = refl

    collect_fields-put :
        (q name : String) (sv : Service) (f : Fields) (s : State)
        → no_null_in f ≡ true
        → collect_fields O q name sv f s ≡ (goes_on tt, put sv q (leaves_of f) s)
    collect_fields-put q name sv end s h = refl
    collect_fields-put q name sv (field k null rest) s h = cc
    collect_fields-put q name sv (field k (text t) rest) s h =
        let (here, later) = and-true (no_null (text t)) (no_null_in rest) h in
        put-then sv q (leaves k (text t)) (leaves_of rest) (collect_items O q sv k (text t))
          (collect_fields O q name sv rest) s (collect_items-put q k sv (text t) s here)
          (collect_fields-put q name sv rest (put sv q (leaves k (text t)) s) later)
    collect_fields-put q name sv (field k (number n) rest) s h =
        let (here, later) = and-true (no_null (number n)) (no_null_in rest) h in
        put-then sv q (leaves k (number n)) (leaves_of rest) (collect_items O q sv k (number n))
          (collect_fields O q name sv rest) s (collect_items-put q k sv (number n) s here)
          (collect_fields-put q name sv rest (put sv q (leaves k (number n)) s) later)
    collect_fields-put q name sv (field k (bool b) rest) s h =
        let (here, later) = and-true (no_null (bool b)) (no_null_in rest) h in
        put-then sv q (leaves k (bool b)) (leaves_of rest) (collect_items O q sv k (bool b))
          (collect_fields O q name sv rest) s (collect_items-put q k sv (bool b) s here)
          (collect_fields-put q name sv rest (put sv q (leaves k (bool b)) s) later)
    collect_fields-put q name sv (field k (object f) rest) s h =
        let (here, later) = and-true (no_null (object f)) (no_null_in rest) h in
        put-then sv q (leaves k (object f)) (leaves_of rest) (collect_items O q sv k (object f))
          (collect_fields O q name sv rest) s (collect_items-put q k sv (object f) s here)
          (collect_fields-put q name sv rest (put sv q (leaves k (object f)) s) later)
    collect_fields-put q name sv (field k (array vs) rest) s h =
        let (here, later) = and-true (no_null (array vs)) (no_null_in rest) h in
        put-then sv q (leaves k (array vs)) (leaves_of rest) (collect_items O q sv k (array vs))
          (collect_fields O q name sv rest) s (collect_items-put q k sv (array vs) s here)
          (collect_fields-put q name sv rest (put sv q (leaves k (array vs)) s) later)
    collect_fields-put q name sv (field k (rows rs) rest) s h =
        let (here, later) = and-true (no_null (rows rs)) (no_null_in rest) h in
        put-then sv q (leaves k (rows rs)) (leaves_of rest) (collect_items O q sv k (rows rs))
          (collect_fields O q name sv rest) s (collect_items-put q k sv (rows rs) s here)
          (collect_fields-put q name sv rest (put sv q (leaves k (rows rs)) s) later)

  -- `collectItems` of a value at a key, with no prefix, adds an item for each leaf of the value in
  -- their order, named by the keys above the leaf, and does nothing else, where neither the value
  -- nor a value in a map of it is null.
  pub collect_items-leaves :
      (key : String) (sv : Service) (v : Value) (s : State)
      → no_null v ≡ true
      → collect_items O "" sv key v s ≡ (goes_on tt, add_leaves sv (leaves key v) s)
  collect_items-leaves key sv v s h =
      collect_items-put "" key sv v s h
      ∙ ap (λ (t : State). (goes_on tt, t)) (put_lem sv (leaves key v) s)
