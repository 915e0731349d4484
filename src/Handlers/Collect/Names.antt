-- ===== src/Handlers/Collect/Names.antt =====
-- The names that `collectItems` makes of the keys above a leaf.
pub use text.Mathlib.TextLemmas.{append_assoc}
use text.Mathlib.TextLemmas.{
  nil-append, cons-append, append_cancel_right, cons-ne-nil, concat-ne-nil,
}
use service_binding_operator.Base.{
  String, ◌<>◌, ◌≡◌, ◌↔◌, refl, sym, ap, ◌∙◌, Bool, true, false, List, [], ◌∷◌, ◌==◌, eq_iff,
  if◌then◌else◌, if-true, if-false, Bool-cases, inl, inr,
}
use service_binding_operator.Base.Text.{join}
use service_binding_operator.Handlers.Collect.{map_prefix}

-- The keys that lead to a leaf with `_` between them, but for empty ones at the beginning.
unfoldable pub path_name : String → List String → String
path_name k [] = k
path_name k (k' ∷ p) = let rest = path_name k' p in if k == "" then rest else join "_" (k ∷ k' ∷ p)

-- The name as the prefixes build it up.
unfoldable pub named : String → String → List String → String
unfolding map_prefix
named q k [] = q <> k
named q k (k' ∷ p) = named (map_prefix q k) k' p

is_separator : (w : String) → ((w <> "_") == "_") ≡ (w == "")
is_separator w = by_test ((w <> "_") == "_") (w == "") (eq_iff (w <> "_") "_") (eq_iff w "")
  where
    by_test : (a b : Bool) → ((a ≡ true) ↔ (w <> "_" ≡ "_")) → ((b ≡ true) ↔ (w ≡ "")) → a ≡ b
    by_test true true f g = refl
    by_test false false f g = refl
    by_test true false f g = sym (g.1 (append_cancel_right w "" "_" (f.0 refl)))
    by_test false true f g = f.1 (ap (λ (t : String). t <> "_") (g.0 refl))

map_prefix-empty : (q k : String) → (q <> k) ≡ "" → map_prefix q k ≡ ""
unfolding map_prefix
map_prefix-empty q k h = rw h refl

map_prefix-cons : (q k : String) → ((q <> k) == "") ≡ false → map_prefix q k ≡ (q <> k) <> "_"
unfolding map_prefix
map_prefix-cons q k h = rw (is_separator (q <> k), h) refl

not_empty : (t : String) → (t ≡ "" → ⊥) → (t == "") ≡ false
not_empty t h = elim (Bool-cases (t == "")) [ inl e ↦ absurd (h ((eq_iff t "").0 e)) | inr e ↦ e ]

longer : (t v : String) → (t ≡ "" → ⊥) → t <> v ≡ "" → ⊥
longer String.[] v h e = h refl
longer (String.◌∷◌ c t) v h e = cons-ne-nil c (t <> v) (sym (cons-append c t v) ∙ e)

append-not_empty : (w v : String) → ((w <> "_") <> v == "") ≡ false
append-not_empty w v = not_empty ((w <> "_") <> v) λ e. longer (w <> "_") v (concat-ne-nil _ w) e

-- Behind a prefix, the name is the keys with `_` between them.
named-prefix :
    (q k : String) (p : List String)
    → ((q <> k) == "") ≡ false
    → named q k p ≡ q <> join "_" (k ∷ p)
unfolding named join
named-prefix q k [] h = refl
named-prefix q k (k' ∷ p) h =
    ap (λ (r : String). named r k' p) (map_prefix-cons q k h)
    ∙ named-prefix ((q <> k) <> "_") k' p (append-not_empty (q <> k) k')
    ∙ append_assoc (q <> k) "_" (join "_" (k' ∷ p))
    ∙ append_assoc q k ("_" <> join "_" (k' ∷ p))

-- The name that the prefixes build up is the one of the path.
pub named_lem : (k : String) (p : List String) → named "" k p ≡ path_name k p
unfolding named path_name
named_lem k [] = nil-append k
named_lem k (k' ∷ p) = elim (Bool-cases (k == "")) [
  | inl e ↦
      ap (λ (r : String). named r k' p) (map_prefix-empty "" k (nil-append k ∙ (eq_iff k "").0 e))
      ∙ named_lem k' p
      ∙ sym (if-true _ e)
  | inr e ↦
      named-prefix "" k (k' ∷ p) (ap (λ (t : String). t == "") (nil-append k) ∙ e)
      ∙ nil-append (join "_" (k ∷ k' ∷ p))
      ∙ sym (if-false _ e)
]
