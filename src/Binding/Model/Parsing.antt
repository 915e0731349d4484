-- ===== src/Binding/Model/Parsing.antt =====
-- Lemmas on reading an annotation that was put together from keys and values.
use text.Mathlib.TextLemmas.{nil-append, cons-append}
use service_binding_operator.Base.{
  String, ◌<>◌, ◌≡◌, refl, sym, ap, ◌∙◌, subst, Bool, true, false, ◌&&◌, List, [], ◌∷◌, none, map,
  any, arith, ◌==◌, eq_iff, Bool-cases, inl, inr, if◌then◌else◌, if-true, if-false,
}
use service_binding_operator.Base.Dict.{Dict, insert, merge}
use service_binding_operator.Base.Text.{
  split, join, count, strip_prefix, char_eq, strip_prefix-append,
}
use service_binding_operator.Binding.Model.{keys, raw_keys, load_parts, load_part}

-- `key=value`
abbrev pub part : String × String → String
part (k, v) = (k <> "=") <> v

-- The texts differ at a character that both have.
differ : String → String → Bool
differ String.[] q = false
differ (String.◌∷◌ c p) String.[] = false
differ (String.◌∷◌ c p) (String.◌∷◌ d q) = if char_eq c d then differ p q else true

strip_prefix-differ : (p q s : String) → differ p q ≡ true → strip_prefix p (q <> s) ≡ none
unfolding differ strip_prefix
strip_prefix-differ String.[] q s h = cc
strip_prefix-differ (String.◌∷◌ c p) String.[] s h = cc
strip_prefix-differ (String.◌∷◌ c p) (String.◌∷◌ d q) s h =
    rw (cons-append d q s) (ground (arith, strip_prefix-differ p q s))

-- No key of the list begins the text.
all_differ : String → List String → Bool
all_differ q [] = true
all_differ q (k ∷ ks) = differ (k <> "=") q && all_differ q ks

load_part-all_differ :
    (q v : String) (ks : List String) (raw : Dict String)
    → all_differ q ks ≡ true
    → load_part (q <> v) ks raw ≡ raw
unfolding all_differ load_part
load_part-all_differ q v [] raw h = refl
load_part-all_differ q v (k ∷ ks) raw h =
    ground (arith, strip_prefix-differ (k <> "=") q v, load_part-all_differ q v ks raw)

-- The key stands once in the list, and no other one begins the same way.
once : String → List String → Bool
once k [] = false
once k (j ∷ ks) =
    let rest = once k ks in
    if j == k then all_differ (k <> "=") ks else differ (j <> "=") (k <> "=") && rest

both : (a : Bool) {b : Bool} → (a && b) ≡ true → (a ≡ true) × (b ≡ true)
both true h = (refl, h)
both false h = cc

load_part-once :
    (k v : String) (ks : List String) (raw : Dict String)
    → once k ks ≡ true
    → load_part (part (k, v)) ks raw ≡ insert k v raw
unfolding once load_part
load_part-once k v [] raw h = cc
load_part-once k v (j ∷ ks) raw h = elim (Bool-cases (j == k)) [
  | inl e ↦
      let same : k ≡ j = sym ((eq_iff j k).0 e) in
      subst (λ j. load_part (part (k, v)) (j ∷ ks) raw ≡ insert k v raw) same
        (rw (load_part, strip_prefix-append (k <> "=") v)
          (load_part-all_differ (k <> "=") v ks (insert k v raw) (sym (if-true _ e) ∙ h)))
  | inr e ↦
      let (apart, later) = both (differ (j <> "=") (k <> "=")) (sym (if-false _ e) ∙ h) in
      rw (load_part, strip_prefix-differ (j <> "=") (k <> "=") v apart)
        (load_part-once k v ks raw later)
]

-- What holds of each text of a list holds of a text that is in it.
AllOf : (String → Type 0) → List String → Type 0
AllOf P [] = Unit {0}
AllOf P (k ∷ ks) = P k × AllOf P ks

member :
    (P : String → Type 0) (k : String) (ks : List String)
    → AllOf P ks
    → any (λ j. j == k) ks ≡ true
    → P k
unfolding AllOf any
member P k [] all h = cc
member P k (j ∷ ks) (here, all) h = elim (Bool-cases (j == k)) [
  | inl e ↦ subst P ((eq_iff j k).0 e) here
  | inr e ↦ member P k ks all (rw e at h)
]

keys-once : (k : String) → any (λ j. j == k) keys ≡ true → once k keys ≡ true
unfolding once all_differ differ AllOf
keys-once k h =
    member (λ k. once k keys ≡ true) k keys (refl, (refl, (refl, (refl, (refl, (refl, tt)))))) h

split-none : (w : String) → count "," w ≡ 0 → split "," w ≡ w ∷ []
unfolding split count
split-none String.[] h = refl
split-none (String.◌∷◌ c w) h = ground (arith, split-none w)

split-append : (w s : String) → count "," w ≡ 0 → split "," (w <> ("," <> s)) ≡ w ∷ split "," s
unfolding split count
split-append String.[] s h =
    rw (nil-append ("," <> s), cons-append "," String.[] s, nil-append s) refl
split-append (String.◌∷◌ c w) s h =
    rw (cons-append c w ("," <> s)) (ground (arith, split-append w s))

abbrev pub NoComma : Dict String → Type 0
NoComma [] = Unit {0}
NoComma ((k, v) ∷ kvs) = (count "," v ≡ 0) × NoComma kvs

abbrev pub AllKeys : Dict String → Type 0
AllKeys [] = Unit {0}
AllKeys ((k, v) ∷ kvs) = (any (λ j. j == k) keys ≡ true) × AllKeys kvs

count-append : (a b : String) → count "," a ≡ 0 → count "," b ≡ 0 → count "," (a <> b) ≡ 0
unfolding count
count-append String.[] b h k = rw (nil-append b) k
count-append (String.◌∷◌ c a) b h k = rw (cons-append c a b) (ground (arith, count-append a b))

keys-count : (k : String) → any (λ j. j == k) keys ≡ true → count "," (k <> "=") ≡ 0
unfolding count AllOf
keys-count k h =
    member (λ k. count "," (k <> "=") ≡ 0) k keys (refl, (refl, (refl, (refl, (refl, (refl, tt))))))
      h

load_parts-part :
    (kvs raw : Dict String) → AllKeys kvs → load_parts (map part kvs) raw ≡ merge raw kvs
unfolding load_parts merge
load_parts-part [] raw h = refl
load_parts-part ((k, v) ∷ kvs) raw (here, h) =
    ap (λ (r : Dict String). load_parts (map part kvs) r)
      (load_part-once k v keys raw (keys-once k here))
    ∙ load_parts-part kvs (insert k v raw) h

split-join :
    (kv : String × String) (kvs : Dict String)
    → AllKeys (kv ∷ kvs)
    → NoComma (kv ∷ kvs)
    → split "," (join "," (map part (kv ∷ kvs))) ≡ map part (kv ∷ kvs)
unfolding join
split-join (k, v) [] (here, h) (clean, n) =
    split-none (part (k, v)) (count-append (k <> "=") v (keys-count k here) clean)
split-join (k, v) (kv ∷ kvs) (here, h) (clean, n) =
    split-append (part (k, v)) (join "," (map part (kv ∷ kvs)))
      (count-append (k <> "=") v (keys-count k here) clean)
    ∙ ap (λ (ws : List String). part (k, v) ∷ ws) (split-join kv kvs h n)

-- An annotation that was put together from parts `key=value`, with commas between them, is read as
-- the assignment of these values to these keys, one after the other, if there is a part, each key
-- is one of the model and no value has a comma.
pub raw_keys-join :
    (kv : String × String) (kvs : Dict String)
    → AllKeys (kv ∷ kvs)
    → NoComma (kv ∷ kvs)
    → raw_keys (join "," (map part (kv ∷ kvs))) ≡ merge [] (kv ∷ kvs)
unfolding raw_keys
raw_keys-join kv kvs h n =
    ap (λ (ws : List String). load_parts ws []) (split-join kv kvs h n)
    ∙ load_parts-part (kv ∷ kvs) [] h
