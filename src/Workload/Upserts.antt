-- ===== src/Workload/Upserts.antt =====
-- Replacing the resources of a name in a list, or appending one: the specification of `AddVolume`
-- and `AddVolumeMount`.
use service_binding_operator.Base.{
  ◌≡◌, refl, ap, Bool, true, false, List, [], ◌∷◌, ◌++◌, arith, any, Bool-cases, inl, inr,
  if◌then◌else◌,
}
use service_binding_operator.Value.{Object}
use service_binding_operator.Machinery.{Codec}
use service_binding_operator.Workload.Slices.Readable.{Reads, AllRead, AllRead-append}

-- `u` stands for each element that passes the test.
unfoldable pub overwrite : (Object → Bool) → Object → List Object → List Object
overwrite p u [] = []
overwrite p u (m ∷ ms) = (if p m then u else m) ∷ overwrite p u ms

-- The list with `u` for the elements of its name, or with `u` at the end.
unfoldable pub upsert : (Object → Bool) → Object → List Object → List Object
upsert p u ms = if any p ms then overwrite p u ms else ms ++ (u ∷ [])

pub overwrite_none :
    (p : Object → Bool) (u : Object) (ms : List Object) → any p ms ≡ false → overwrite p u ms ≡ ms
unfolding overwrite any
overwrite_none p u [] h = refl
overwrite_none p u (m ∷ ms) h = ground (arith, overwrite_none p u ms)

module _ {A : Type 0} (c : Codec A) (p : Object → Bool) (u : Object) where
  AllRead-overwrite : (ms : List Object) → Reads c u → AllRead c ms → AllRead c (overwrite p u ms)
  unfolding overwrite
  AllRead-overwrite [] r h = tt
  AllRead-overwrite (m ∷ ms) r (q, h) = elim (Bool-cases (p m)) [
    | inl e ↦ rw e (r, AllRead-overwrite ms r h)
    | inr e ↦ rw e (q, AllRead-overwrite ms r h)
  ]

  pub AllRead-upsert : (ms : List Object) → Reads c u → AllRead c ms → AllRead c (upsert p u ms)
  unfolding upsert
  AllRead-upsert ms r h = elim (Bool-cases (any p ms)) [
    | inl e ↦ rw e (AllRead-overwrite ms r h)
    | inr e ↦ rw e (AllRead-append c ms (u ∷ []) h (r, tt))
  ]

pub upsert-nil : (p : Object → Bool) (u : Object) → upsert p u [] ≡ u ∷ []
unfolding upsert any
upsert-nil p u = refl

overwrite_again :
    (p : Object → Bool) (u : Object) (ms : List Object)
    → p u ≡ true
    → overwrite p u (overwrite p u ms) ≡ overwrite p u ms
unfolding overwrite
overwrite_again p u [] h = refl
overwrite_again p u (m ∷ ms) h = elim (Bool-cases (p m)) [
  | inl e ↦ rw (e, h) (ap (λ (r : List Object). u ∷ r) (overwrite_again p u ms h))
  | inr e ↦ rw (e, e) (ap (λ (r : List Object). m ∷ r) (overwrite_again p u ms h))
]

any-overwrite :
    (p : Object → Bool) (u : Object) (ms : List Object)
    → p u ≡ true
    → any p (overwrite p u ms) ≡ any p ms
unfolding overwrite any
any-overwrite p u [] h = refl
any-overwrite p u (m ∷ ms) h = elim (Bool-cases (p m)) [
  | inl e ↦ rw (e, h)
  | inr e ↦ rw (e, e) (any-overwrite p u ms h)
]

overwrite-append :
    (p : Object → Bool) (u : Object) (ms : List Object)
    → p u ≡ true
    → any p ms ≡ false
    → overwrite p u (ms ++ (u ∷ [])) ≡ ms ++ (u ∷ [])
unfolding overwrite any
overwrite-append p u [] h e = rw h
overwrite-append p u (m ∷ ms) h e = ground (arith, overwrite-append p u ms h)

any-append_self :
    (p : Object → Bool) (u : Object) (ms : List Object) → p u ≡ true → any p (ms ++ (u ∷ [])) ≡ true
unfolding any
any-append_self p u [] h = rw h
any-append_self p u (m ∷ ms) h = ground (arith, any-append_self p u ms h)

-- A second replacement changes nothing.
pub upsert_again :
    (p : Object → Bool) (u : Object) (ms : List Object)
    → p u ≡ true
    → upsert p u (upsert p u ms) ≡ upsert p u ms
unfolding upsert
upsert_again p u ms h = elim (Bool-cases (any p ms)) [
  | inl e ↦ rw e (rw (any-overwrite p u ms h, e) (overwrite_again p u ms h))
  | inr e ↦ rw e (rw (any-append_self p u ms h) (overwrite-append p u ms h e))
]
