-- ===== src/Handlers/Project/Checked.antt =====
-- What is known where `PreFlightCheck` (pkg/reconcile/pipeline/handler/project/impl.go) lets the
-- pipeline go on.
use service_binding_operator.Base.{
  String, ◌≡◌, refl, ap, ◌∙◌, Bool, true, false, ◌&&◌, Option, List, [], ◌∷◌, ok, is_empty,
  if◌then◌else◌,
}
use service_binding_operator.Base.Dict.{Dict, lookup, contains}
use service_binding_operator.Apis.Conditions.{conditions, collection_ready, data_collected}
use service_binding_operator.Pipeline.Items.{BindingItem, as_map}
use service_binding_operator.Handlers.Act.{
  Act, goes_on, ◌>>=◌, ◌>>◌, done, leave, change, call, when, bind-eq-goes_on, attempt-eq-goes_on,
}
use service_binding_operator.Handlers.Operations.{Operations}
use service_binding_operator.Handlers.Project.{
  check_mandatory, check_projection, pre_flight_check, report_missing,
}

-- The map has all the keys.
unfoldable pub has_all : List String → Dict String → Bool
unfolding lookup
has_all [] items = true
has_all (k ∷ ks) items = contains k items && has_all ks items

module _ (O : Operations) where
  open O use {
    State, Application, Service, set_condition, persist_secret, applications, binding_items,
  }

  then_leave-never :
      {A : Type 0} (f : State → State) (t t' : State) (a : A)
      → (change f >> leave) t ≡ (goes_on a, t')
      → ⊥
  unfolding change leave ◌>>◌ ◌>>=◌
  then_leave-never f t t' a h = cc

  then-eq-goes_on :
      {A B : Type 0} (m : Act State A) (k : Act State B) (s s' : State) {b : B}
      → (m >> k) s ≡ (goes_on b, s')
      → (a : A) × (t : State) × (m s ≡ (goes_on a, t)) × (k t ≡ (goes_on b, s'))
  unfolding ◌>>◌
  then-eq-goes_on m k s s' h = bind-eq-goes_on m (λ _. k) s s' h

  then_then_leave-never :
      {A : Type 0} (f g : State → State) (t t' : State) (a : A)
      → (change f >> (change g >> leave)) t ≡ (goes_on a, t')
      → ⊥
  unfolding change leave ◌>>◌ ◌>>=◌
  then_then_leave-never f g t t' a h = cc

  call-eq-goes_on :
      {A : Type 0} (f : State → A × State) (t t' : State) {a : A}
      → call f t ≡ (goes_on a, t')
      → f t ≡ (a, t')
  unfolding call
  call-eq-goes_on f t t' h = cc

  change-eq-goes_on :
      (f : State → State) (t t' : State) {a : Unit {0}} → change f t ≡ (goes_on a, t') → f t ≡ t'
  unfolding change
  change-eq-goes_on f t t' h = cc

  when-eq-goes_on :
      (b : Bool) (m : Act State (Unit {0})) (s s' : State)
      → ((t t' : State) → m t ≡ (goes_on tt, t') → ⊥)
      → when b m s ≡ (goes_on tt, s')
      → (b ≡ false) × (s ≡ s')
  unfolding when done
  when-eq-goes_on true m s s' never h = absurd (never s s' h)
  when-eq-goes_on false m s s' never h = (refl, cc)

  check_mandatory-has_all :
      (keys : List String) (items : Dict String) (s s' : State)
      → check_mandatory O keys items s ≡ (goes_on tt, s')
      → (has_all keys items ≡ true) × (s ≡ s')
  unfolding check_mandatory has_all done ◌>>◌ ◌>>=◌ change leave
  check_mandatory-has_all [] items s s' h = (refl, cc)
  check_mandatory-has_all (k ∷ ks) items s s' h =
      by_test (contains k items) h (check_mandatory-has_all ks items s s')
    where
      by_test :
          (b : Bool)
          → (if b then check_mandatory O ks items else change (report_missing O k) >> leave) s
            ≡ (goes_on tt, s')
          → (check_mandatory O ks items s ≡ (goes_on tt, s') → (has_all ks items ≡ true) × (s ≡ s'))
          → ((b && has_all ks items) ≡ true) × (s ≡ s')
      by_test true h later = later h
      by_test false h later = absurd (then_leave-never (report_missing O k) s s' tt h)

  -- What `PreFlightCheck` has seen where it goes on from one state to another.
  pub record Passed (keys : List String) (s s' : State) : Type 0 where
    pub persisted : State
    pub found : State
    pub apps : List Application
    pub items : List (BindingItem (Option Service))
    pub persist_secret-ok : persist_secret s ≡ (ok tt, persisted)
    pub applications-ok :
        applications (set_condition (data_collected (collection_ready conditions)) persisted)
        ≡ (ok apps, found)
    pub apps-exist : is_empty apps ≡ false
    pub binding_items-read : binding_items found ≡ (items, s')
    pub items-exist : is_empty items ≡ false
    pub keys-there : has_all keys (as_map items) ≡ true

  -- Where `PreFlightCheck` goes on, the secret was persisted without an error, the applications
  -- were found and are not none, and there are binding items, every mandatory key among them; and
  -- after these calls only the condition that the data are collected was set.
  pub pre_flight_check-Passed :
      (keys : List String) (s s' : State)
      → pre_flight_check O keys s ≡ (goes_on tt, s')
      → Passed keys s s'
  unfolding pre_flight_check check_projection
  pre_flight_check-Passed keys s s' h =
      let (_, persisted, e₁, h₁) = then-eq-goes_on _ _ s s' h in
      let (_, t, e₂, h₂) = then-eq-goes_on _ _ persisted s' h₁ in
      let (apps, found, e₃, h₃) = bind-eq-goes_on _ _ t s' h₂ in
      let (_, t₁, e₄, h₄) = then-eq-goes_on _ _ found s' h₃ in
      let (items, t₂, e₅, h₅) = bind-eq-goes_on _ _ t₁ s' h₄ in
      let (_, t₃, e₆, h₆) = then-eq-goes_on _ _ t₂ s' h₅ in
      let (some_apps, same₁) =
        when-eq-goes_on (is_empty apps) _ found t₁ (λ u u'. then_then_leave-never _ _ u u' tt) e₄ in
      let (some_items, same₂) =
        when-eq-goes_on (is_empty items) _ t₂ t₃ (λ u u'. then_then_leave-never _ _ u u' tt) e₆ in
      let (all_there, same₃) = check_mandatory-has_all keys (as_map items) t₃ s' h₆ in
      record {
        persisted = persisted;
        found = found;
        apps = apps;
        items = items;
        persist_secret-ok =
            attempt-eq-goes_on persist_secret _ s persisted (λ e u u' b. then_leave-never _ u u' b)
              e₁;
        applications-ok =
            ap applications (change-eq-goes_on _ persisted t e₂)
            ∙ attempt-eq-goes_on applications _ t found
                (λ e u u' b. then_then_leave-never _ _ u u' b) e₃;
        apps-exist = some_apps;
        binding_items-read =
            ap binding_items same₁
            ∙ call-eq-goes_on binding_items t₁ t₂ e₅
            ∙ ap (λ (u : State). (items, u)) (same₂ ∙ same₃);
        items-exist = some_items;
        keys-there = all_there;
      }
