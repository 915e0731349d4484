-- ===== src/Binding/Panics.antt =====
-- Panics of `getValuesByJSONPath` (pkg/binding/jsonpath.go), and rules for results that are none.
use service_binding_operator.Base.{
  String, ◌≡◌, refl, ap, Bool, true, false, List, [], ◌∷◌, Error, Result, ok, err, panic, ◌>>=◌,
  if◌then◌else◌, ok-injective, sym, ◌∙◌, ◌⊎◌, inl, inr,
}
use service_binding_operator.Value.{Object}
use service_binding_operator.Binding.Jsonpath.{
  Jsonpath, Reflected, get_values_by_json_path, one_result, print_all,
}
use service_binding_operator.Binding.Definition.{SecretConfigMapReader}

abbrev pub NoPanic {ℓ} : {A : Type ℓ} → Result A → Type 0
NoPanic (panic e) = ⊥
NoPanic _ = Unit {0}

pub >>=-NoPanic {ℓ κ} :
    {A : Type ℓ} {B : Type κ} (m : Result A) (f : A → Result B)
    → NoPanic m
    → ((a : A) → NoPanic (f a))
    → NoPanic (m >>= f)
>>=-NoPanic (ok a) f h k = k a
>>=-NoPanic (err e) f h k = tt
>>=-NoPanic (panic e) f h k = h

pub if-NoPanic {ℓ} :
    {A : Type ℓ} (b : Bool) (x y : Result A) → NoPanic x → NoPanic y → NoPanic (if b then x else y)
if-NoPanic true x y h k = h
if-NoPanic false x y h k = k

-- What is relied on of package `jsonpath`: its functions return.
pub record IsTotal (J : Jsonpath) : Type 0 where
  pub parse-NoPanic : (path : String) → NoPanic (J.parse path)
  pub find_results-NoPanic : (j : J.Template) (u : Object) → NoPanic (J.find_results j u)
  pub print_results-NoPanic : (j : J.Template) (r : List Reflected) → NoPanic (J.print_results j r)

pub record IsTotalReader (r : SecretConfigMapReader) : Type 0 where
  pub config_map-NoPanic : (namespace name : String) → NoPanic (r.config_map_reader namespace name)
  pub secret-NoPanic : (namespace name : String) → NoPanic (r.secret_reader namespace name)

-- A template that parses and gives no result at all, as an empty one does, or a range over an empty
-- list.
abbrev pub NoResult : Jsonpath → Object → (path : String) → Type 0
NoResult J u path = (j : J.Template) × (J.parse path ≡ ok j) × (J.find_results j u ≡ ok [])

abbrev pub HasResult : Jsonpath → Object → (path : String) → Type 0
HasResult J u path = (j : J.Template) → J.parse path ≡ ok j → J.find_results j u ≡ ok [] → ⊥

ok_cons-never {ℓ} : {A : Type ℓ} {x : A} {xs : List A} → ok (x ∷ xs) ≡ ok [] → ⊥
ok_cons-never h = cc

err-never {ℓ} : {A : Type ℓ} {e : Error} {a : A} → err e ≡ ok a → ⊥
err-never h = cc

panic-never {ℓ} : {A : Type ℓ} {e : Error} {a : A} → panic e ≡ ok a → ⊥
panic-never h = cc

pub has_result :
    (J : Jsonpath) (u : Object) (path : String) → HasResult J u path ⊎ NoResult J u path
has_result J u path = by_parse (J.parse path) refl
  where
    by_results :
        (j : J.Template) (r : Result (List (List Reflected)))
        → J.parse path ≡ ok j
        → J.find_results j u ≡ r
        → HasResult J u path ⊎ NoResult J u path
    by_results j (ok []) p q = inr (j, p, q)
    by_results j (ok (r ∷ rs)) p q = inl λ j' p' q'.
        ok_cons-never (sym q ∙ ap (λ j. J.find_results j u) (ok-injective (sym p ∙ p')) ∙ q')
    by_results j (err e) p q = inl λ j' p' q'.
        err-never (sym q ∙ ap (λ j. J.find_results j u) (ok-injective (sym p ∙ p')) ∙ q')
    by_results j (panic e) p q = inl λ j' p' q'.
        panic-never (sym q ∙ ap (λ j. J.find_results j u) (ok-injective (sym p ∙ p')) ∙ q')

    by_parse : (r : Result J.Template) → J.parse path ≡ r → HasResult J u path ⊎ NoResult J u path
    by_parse (ok j) p = by_results j (J.find_results j u) p refl
    by_parse (err e) p = inl λ j p' q. err-never (sym p ∙ p')
    by_parse (panic e) p = inl λ j p' q. panic-never (sym p ∙ p')

module _ (J : Jsonpath) (T : IsTotal J) where
  print_all-NoPanic : (j : J.Template) (rs : List (List Reflected)) → NoPanic (print_all J j rs)
  unfolding print_all
  print_all-NoPanic j [] = tt
  print_all-NoPanic j (r ∷ rs) =
      >>=-NoPanic (J.print_results j r) _ (T.print_results-NoPanic j r)
        λ s. >>=-NoPanic (print_all J j rs) _ (print_all-NoPanic j rs) λ rest. tt

  one_result-NoPanic :
      (j : J.Template) (rs : List (List Reflected)) → (rs ≡ [] → ⊥) → NoPanic (one_result J j rs)
  unfolding one_result
  one_result-NoPanic j [] h = h refl
  one_result-NoPanic j (r ∷ []) h = tt
  one_result-NoPanic j (r ∷ (r' ∷ rs)) h =
      >>=-NoPanic (print_all J j (r ∷ (r' ∷ rs))) _ (print_all-NoPanic j (r ∷ (r' ∷ rs))) λ s. tt

  pub get_values-NoPanic :
      (u : Object) (path : String) → HasResult J u path → NoPanic (get_values_by_json_path J u path)
  unfolding get_values_by_json_path
  get_values-NoPanic u path some_result =
      parsed (J.parse path) (T.parse-NoPanic path)
        λ j p. found_some j (J.find_results j u) (T.find_results-NoPanic j u) (some_result j p)
    where
      parsed :
          (r : Result J.Template)
          → NoPanic r
          → ((j : J.Template) → r ≡ ok j → NoPanic (J.find_results j u >>= one_result J j))
          → NoPanic (r >>= λ j. J.find_results j u >>= one_result J j)
      parsed (ok j) h k = k j refl
      parsed (err e) h k = tt
      parsed (panic e) h k = h

      found_some :
          (j : J.Template) (r : Result (List (List Reflected)))
          → NoPanic r
          → (r ≡ ok [] → ⊥)
          → NoPanic (r >>= one_result J j)
      found_some j (ok rs) h k = one_result-NoPanic j rs (λ e. k (ap ok e))
      found_some j (err e) h k = tt
      found_some j (panic e) h k = h
