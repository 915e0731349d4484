-- ===== src/Handlers/Act.antt =====
-- What a handler does step by step: it changes the state of its context, and goes on, returns
-- early, or panics.
use service_binding_operator.Base.{
  ◌≡◌, refl, ap, ◌∙◌, arith, Bool, true, false, Option, none, some, List, [], ◌∷◌, Error, Result,
  ok, err, panic,
}
use service_binding_operator.Pipeline.Process.{Outcome, returned, panicked}

pub data Progress {ℓ} (A : Type ℓ) : Type ℓ where
  goes_on : A → Progress A
  returns : Progress A
  panics : Error → Progress A

abbrev pub Act {ℓ} : Type 0 → Type ℓ → Type ℓ
Act S A = S → Progress A × S

module _ {S : Type 0} where
  infixl 5 ◌>>=◌ ◌>>◌
  unfoldable pub ◌>>=◌ {ℓ κ} : {A : Type ℓ} {B : Type κ} → Act S A → (A → Act S B) → Act S B
  ◌>>=◌ m f s =
      let (p, s') = m s in
      elim p [ goes_on a ↦ f a s' | returns ↦ (returns, s') | panics e ↦ (panics e, s') ]

  unfoldable pub ◌>>◌ {ℓ κ} : {A : Type ℓ} {B : Type κ} → Act S A → Act S B → Act S B
  m >> k = m >>= λ _. k

  -- `return`
  unfoldable pub leave {ℓ} : {A : Type ℓ} → Act S A
  leave s = (returns, s)

  unfoldable pub done : Act S (Unit {0})
  done s = (goes_on tt, s)

  -- A change of the context.
  unfoldable pub change : (S → S) → Act S (Unit {0})
  change f s = (goes_on tt, f s)

  -- A look at the context.
  unfoldable pub look {ℓ} : {A : Type ℓ} → (S → A) → Act S A
  look f s = (goes_on (f s), s)

  -- A call that gives no error.
  unfoldable pub call {ℓ} : {A : Type ℓ} → (S → A × S) → Act S A
  call f s = let (a, s') = f s in (goes_on a, s')

  -- `a, err := f(); if err != nil { … }`
  unfoldable pub attempt {ℓ} : {A : Type ℓ} → (S → Result A × S) → (Error → Act S A) → Act S A
  attempt f handle s =
      let (r, s') = f s in
      elim r [ ok a ↦ (goes_on a, s') | err e ↦ handle e s' | panic e ↦ (panics e, s') ]

  unfoldable pub when : Bool → Act S (Unit {0}) → Act S (Unit {0})
  when true m = m
  when false m = done

  -- `for _, x := range xs { … }`
  unfoldable pub each : {A : Type 0} → List A → (A → Act S (Unit {0})) → Act S (Unit {0})
  each [] f = done
  each (x ∷ xs) f = f x >> each xs f

  -- A nil pointer is used.
  unfoldable pub not_nil {ℓ} : {A : Type ℓ} → Error → Option A → Act S A
  not_nil e none s = (panics e, s)
  not_nil e (some a) s = (goes_on a, s)

  unfoldable pub crash {ℓ} : {A : Type ℓ} → Error → Act S A
  crash e s = (panics e, s)

  unfoldable pub outcome : Progress (Unit {0}) × S → Outcome S
  outcome (goes_on _, s) = returned s
  outcome (returns, s) = returned s
  outcome (panics e, s) = panicked e s

  -- The handler that does this.
  unfoldable pub handler : Act S (Unit {0}) → S → Outcome S
  handler m s = outcome (m s)

  -- What is known where a step goes on.
  pub bind-eq-goes_on {ℓ κ} :
      {A : Type ℓ} {B : Type κ} (m : Act S A) (f : A → Act S B) (s s' : S) {b : B}
      → (m >>= f) s ≡ (goes_on b, s')
      → (a : A) × (t : S) × (m s ≡ (goes_on a, t)) × (f a t ≡ (goes_on b, s'))
  unfolding ◌>>=◌
  bind-eq-goes_on {A} {B} m f s s' {b} h = by_end (m s) refl h
    where
      by_end :
          (r : Progress A × S)
          → m s ≡ r
          → (let (p, t) = r in
              elim p as (λ _. Progress B × S) [
                | goes_on a ↦ f a t
                | returns ↦ (returns, t)
                | panics e ↦ (panics e, t)
              ])
            ≡ (goes_on b, s')
          → (a : A) × (t : S) × (m s ≡ (goes_on a, t)) × (f a t ≡ (goes_on b, s'))
      by_end (goes_on a, t) e h = (a, t, e, h)
      by_end (returns, t) e h = cc
      by_end (panics x, t) e h = cc

  pub attempt-eq-goes_on {ℓ} :
      {A : Type ℓ} (f : S → Result A × S) (handle : Error → Act S A) (s s' : S) {a : A}
      → ((e : Error) (t t' : S) (b : A) → handle e t ≡ (goes_on b, t') → ⊥)
      → attempt f handle s ≡ (goes_on a, s')
      → f s ≡ (ok a, s')
  unfolding attempt
  attempt-eq-goes_on {A} f handle s s' {a} never h = by_result (f s) refl h
    where
      by_result :
          (r : Result A × S)
          → f s ≡ r
          → (let (x, t) = r in
              elim x as (λ _. Progress A × S) [
                | ok a ↦ (goes_on a, t)
                | err e ↦ handle e t
                | panic e ↦ (panics e, t)
              ])
            ≡ (goes_on a, s')
          → f s ≡ (ok a, s')
      by_result (ok b, t) e h = cc
      by_result (err x, t) e h = absurd (never x t s' a h)
      by_result (panic x, t) e h = cc

  abbrev after {ℓ κ} : {A : Type ℓ} {B : Type κ} → (A → Act S B) → Progress A × S → Progress B × S
  after f (goes_on a, t) = f a t
  after f (returns, t) = (returns, t)
  after f (panics e, t) = (panics e, t)

  bind-after {ℓ κ} :
      {A : Type ℓ} {B : Type κ} (m : Act S A) (f : A → Act S B) (s : S)
      → (m >>= f) s ≡ after f (m s)
  unfolding ◌>>=◌
  bind-after m f s = ground arith

  pub bind-goes_on {ℓ κ} :
      {A : Type ℓ} {B : Type κ} (m : Act S A) (f : A → Act S B) (s t : S) {a : A}
      → m s ≡ (goes_on a, t)
      → (m >>= f) s ≡ f a t
  bind-goes_on m f s t h = bind-after m f s ∙ ap (after f) h

  pub then-goes_on {ℓ κ} :
      {A : Type ℓ} {B : Type κ} (m : Act S A) (k : Act S B) (s t : S) {a : A}
      → m s ≡ (goes_on a, t)
      → (m >> k) s ≡ k t
  unfolding ◌>>◌
  then-goes_on m k s t h = bind-goes_on m (λ _. k) s t h
