-- ===== src/Base/Sort.antt =====
-- `sort.Strings`, and the order of keys in which `fmt` prints a map: by the bytes of the texts.
use Prim.Native.Nat.{Ordering}
use Prim.Native.String.{String, compare}
use mathlib.Core.Bool.{Bool, true, false}
use mathlib.Core.List.{List, [], ◌∷◌}
use service_binding_operator.Base.Tests.{if◌then◌else◌}

abbrev pub text_le : String → String → Bool
text_le s t = elim (compare s t) [ Ordering.gt ↦ false | _ ↦ true ]

module _ {ℓ} {V : Type ℓ} where
  unfoldable pub insert_by_key : String × V → List (String × V) → List (String × V)
  insert_by_key e [] = e ∷ []
  insert_by_key e (x ∷ xs) =
      let rest = insert_by_key e xs in if text_le e.0 x.0 then e ∷ (x ∷ xs) else x ∷ rest

  unfoldable pub sort_by_key : List (String × V) → List (String × V)
  unfolding insert_by_key
  sort_by_key [] = []
  sort_by_key (x ∷ xs) = insert_by_key x (sort_by_key xs)
