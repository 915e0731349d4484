-- ===== src/Handlers/Discipline.antt =====
-- What the steps of a handler do to the flow control of its context, by rules for the steps of
-- Handlers.Act.
use service_binding_operator.Base.{
  ◌≡◌, sym, subst, Bool, true, false, Option, none, some, List, [], ◌∷◌, Error, Result, ok, err,
  panic, if◌then◌else◌,
}
use service_binding_operator.Pipeline.Flow.{FlowCtrl}
use service_binding_operator.Handlers.Act.{
  Act, Progress, goes_on, returns, panics, ◌>>=◌, ◌>>◌, done, leave, change, look, call, attempt,
  not_nil, when, each,
}

-- How the flow control may stand to that of before where a handler goes on or panics, and where it
-- returns early.
pub record Discipline (S : Type 0) : Type 1 where
  pub flow : S → FlowCtrl
  pub Passes : FlowCtrl → FlowCtrl → Type 0
  pub Leaves : FlowCtrl → FlowCtrl → Type 0
  pub same : (f : FlowCtrl) → Passes f f
  pub trans : (f g h : FlowCtrl) → Passes f g → Passes g h → Passes f h
  pub leaves_after : (f g h : FlowCtrl) → Passes f g → Leaves g h → Leaves f h

module _ {S : Type 0} (D : Discipline S) where
  open D use {flow, Passes, Leaves, same, trans, leaves_after}

  abbrev pub Ended {ℓ} : {A : Type ℓ} → FlowCtrl → Progress A × S → Type 0
  Ended f (goes_on a, s) = Passes f (flow s)
  Ended f (returns, s) = Leaves f (flow s)
  Ended f (panics e, s) = Passes f (flow s)

  unfoldable pub Obeys {ℓ} : {A : Type ℓ} → Act S A → Type 0
  Obeys m = (s : S) → Ended (flow s) (m s)

  pub Ended-after {ℓ} :
      {A : Type ℓ} (f g : FlowCtrl) (r : Progress A × S) → Passes f g → Ended g r → Ended f r
  Ended-after f g (goes_on a, s) p h = trans f g (flow s) p h
  Ended-after f g (returns, s) p h = leaves_after f g (flow s) p h
  Ended-after f g (panics e, s) p h = trans f g (flow s) p h

  pub bind-Obeys {ℓ κ} :
      {A : Type ℓ} {B : Type κ} (m : Act S A) (k : A → Act S B)
      → Obeys m
      → ((a : A) → Obeys (k a))
      → Obeys (m >>= k)
  unfolding Obeys ◌>>=◌
  bind-Obeys {A = A} {B = B} m k hm hk s = by_end (m s) (hm s)
    where
      by_end :
          (r : Progress A × S)
          → Ended (flow s) r
          → Ended (flow s) (
              let (p, s') = r in
              elim p as (λ _. Progress B × S) [
                | goes_on a ↦ k a s'
                | returns ↦ (returns, s')
                | panics e ↦ (panics e, s')
              ])
      by_end (goes_on a, s') h = Ended-after (flow s) (flow s') (k a s') h (hk a s')
      by_end (returns, s') h = h
      by_end (panics e, s') h = h

  pub done-Obeys : Obeys done
  unfolding Obeys done
  done-Obeys s = same (flow s)

  pub unchanged : {s s' : S} → flow s' ≡ flow s → Passes (flow s) (flow s')
  unchanged {s} h = subst (λ (g : FlowCtrl). Passes (flow s) g) (sym h) (same (flow s))

  pub change-Obeys : (f : S → S) → ((s : S) → Passes (flow s) (flow (f s))) → Obeys (change f)
  unfolding Obeys change
  change-Obeys f h s = h s

  pub look-Obeys {ℓ} : {A : Type ℓ} (f : S → A) → Obeys (look f)
  unfolding Obeys look
  look-Obeys f s = same (flow s)

  pub call-Obeys {ℓ} :
      {A : Type ℓ} (f : S → A × S) → ((s : S) → flow (f s).1 ≡ flow s) → Obeys (call f)
  unfolding Obeys call
  call-Obeys f h s = unchanged (h s)

  pub attempt-Obeys {ℓ} :
      {A : Type ℓ} (f : S → Result A × S) (handle : Error → Act S A)
      → ((s : S) → flow (f s).1 ≡ flow s)
      → ((e : Error) → Obeys (handle e))
      → Obeys (attempt f handle)
  unfolding Obeys attempt
  attempt-Obeys {A = A} f handle h k s = by_result (f s) (unchanged (h s))
    where
      by_result :
          (r : Result A × S)
          → Passes (flow s) (flow r.1)
          → Ended (flow s) (
              let (a, s') = r in
              elim a as (λ _. Progress A × S) [
                | ok a ↦ (goes_on a, s')
                | err e ↦ handle e s'
                | panic e ↦ (panics e, s')
              ])
      by_result (ok a, s') p = p
      by_result (err e, s') p = Ended-after (flow s) (flow s') (handle e s') p (k e s')
      by_result (panic e, s') p = p

  pub when-Obeys : (b : Bool) (m : Act S (Unit {0})) → Obeys m → Obeys (when b m)
  unfolding Obeys when done
  when-Obeys true m h s = h s
  when-Obeys false m h s = same (flow s)

  pub if-Obeys {ℓ} :
      {A : Type ℓ} (b : Bool) (m k : Act S A) → Obeys m → Obeys k → Obeys (if b then m else k)
  unfolding Obeys
  if-Obeys true m k h h' s = h s
  if-Obeys false m k h h' s = h' s

  pub each-Obeys :
      {A : Type 0} (xs : List A) (f : A → Act S (Unit {0}))
      → ((x : A) → Obeys (f x))
      → Obeys (each xs f)
  unfolding each Obeys done ◌>>◌ ◌>>=◌
  each-Obeys [] f h s = same (flow s)
  each-Obeys (x ∷ xs) f h s = bind-Obeys (f x) (λ _. each xs f) (h x) (λ _. each-Obeys xs f h) s

  pub not_nil-Obeys {ℓ} : {A : Type ℓ} (e : Error) (o : Option A) → Obeys (not_nil e o)
  unfolding Obeys not_nil
  not_nil-Obeys e none s = same (flow s)
  not_nil-Obeys e (some a) s = same (flow s)

  pub leave-Obeys {ℓ} : (A : Type ℓ) → ((f : FlowCtrl) → Leaves f f) → Obeys {A = A} leave
  unfolding Obeys leave
  leave-Obeys A h s = h (flow s)

  pub then-Obeys {ℓ κ} :
      {A : Type ℓ} {B : Type κ} (m : Act S A) (k : Act S B) → Obeys m → Obeys k → Obeys (m >> k)
  unfolding ◌>>◌
  then-Obeys m k h h' = bind-Obeys m (λ _. k) h (λ _. h')

pub ruleset discipline_rules = (
  done-Obeys, look-Obeys, call-Obeys, attempt-Obeys, when-Obeys, if-Obeys, each-Obeys,
  not_nil-Obeys, bind-Obeys, then-Obeys,
)
