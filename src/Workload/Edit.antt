-- ===== src/Workload/Edit.antt =====
-- An operation on an object that it may change before it gives its result, also where that is an
-- error: what was written stays written.
use service_binding_operator.Base.{◌≡◌, refl, arith, Error, Result, ok, err, panic}
use service_binding_operator.Value.{Object}

abbrev pub Edit {ℓ} : Type ℓ → Type ℓ
Edit A = Object → Result A × Object

-- Runs a pure step against the object as it stands.
abbrev pub gets {ℓ} : {A : Type ℓ} → (Object → Result A) → Edit A
gets f o = (f o, o)

-- `return nil`
abbrev pub done : Edit (Unit {0})
done o = (ok tt, o)

abbrev pub pure {ℓ} : {A : Type ℓ} → A → Edit A
pure a o = (ok a, o)

-- `return err`
abbrev pub fail {ℓ} : {A : Type ℓ} → Error → Edit A
fail e o = (err e, o)

-- Replaces the object by what was made of it, and leaves it as it was where that failed.
abbrev pub replace : (Object → Result Object) → Edit (Unit {0})
replace f o = elim (f o) [ ok o' ↦ (ok tt, o') | err e ↦ (err e, o) | panic e ↦ (panic e, o) ]

infixl 5 ◌>>=◌ ◌>>◌
abbrev pub ◌>>=◌ {ℓ κ} : {A : Type ℓ} {B : Type κ} → Edit A → (A → Edit B) → Edit B
◌>>=◌ m f o =
    let (r, o') = m o in elim r [ ok a ↦ f a o' | err e ↦ (err e, o') | panic e ↦ (panic e, o') ]

abbrev pub ◌>>◌ {ℓ κ} : {A : Type ℓ} {B : Type κ} → Edit A → Edit B → Edit B
m >> k = m >>= λ _. k

-- `_ = m`: an error is dropped, a panic is not.
abbrev pub ignore_error : Edit (Unit {0}) → Edit (Unit {0})
ignore_error m o =
    let (r, o') = m o in
    elim r [ ok _ ↦ (ok tt, o') | err _ ↦ (ok tt, o') | panic e ↦ (panic e, o') ]

-- Inversion of a successful step, for proofs where the parts stay shut.
module _ {ℓ κ} {A : Type ℓ} {B : Type κ} where
  pub gets-ok :
      (f : Object → Result A) (k : A → Edit B) (o : Object) {a : A}
      → f o ≡ ok a
      → (gets f >>= k) o ≡ k a o
  gets-ok f k o e = rw (e, ◌>>=◌)

  pub gets-err :
      (f : Object → Result A) (k : A → Edit B) (o : Object) {e : Error}
      → f o ≡ err e
      → (gets f >>= k) o ≡ (err e, o)
  gets-err f k o h = rw (h, ◌>>=◌)

  pub gets-panic :
      (f : Object → Result A) (k : A → Edit B) (o : Object) {e : Error}
      → f o ≡ panic e
      → (gets f >>= k) o ≡ (panic e, o)
  gets-panic f k o h = rw (h, ◌>>=◌)

  pub gets-eq-ok :
      (f : Object → Result A) (k : A → Edit B) (o : Object) {b : B} {o' : Object}
      → (gets f >>= k) o ≡ (ok b, o')
      → (a : A) × (f o ≡ ok a) × (k a o ≡ (ok b, o'))
  gets-eq-ok f k o h = ground arith

  continue-eq-ok :
      (r : Result A × Object) (k : A → Edit B) {b : B} {o' : Object}
      → ((λ (o : Object). r) >>= k) r.1 ≡ (ok b, o')
      → (a : A) × (o₁ : Object) × (r ≡ (ok a, o₁)) × (k a o₁ ≡ (ok b, o'))
  continue-eq-ok (ok a, o₁) k h = (a, o₁, refl, h)
  continue-eq-ok (err e, o₁) k h = cc
  continue-eq-ok (panic e, o₁) k h = cc

  pub >>=-eq-ok :
      (m : Edit A) (k : A → Edit B) (o : Object) {b : B} {o' : Object}
      → (m >>= k) o ≡ (ok b, o')
      → (a : A) × (o₁ : Object) × (m o ≡ (ok a, o₁)) × (k a o₁ ≡ (ok b, o'))
  >>=-eq-ok m k o h = continue-eq-ok (m o) k h

pub replace-eq-ok :
    (f : Object → Result Object) (o : Object) {o' : Object}
    → replace f o ≡ (ok tt, o')
    → f o ≡ ok o'
replace-eq-ok f o h = ground arith
