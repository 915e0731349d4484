-- ===== src/Base/Decimal.antt =====
-- The verb `%v` of package `fmt` on a number that is not negative: its decimal digits.
use Prim.Native.Nat.{ℕ, zero, suc, ◌+◌, ◌/◌, ◌%◌, ◌≤◌}
use Prim.Native.Char.{Char, char}
use Prim.Native.String.{String}
use mathlib.Core.Path.{◌≡◌, refl}
use native.Mathlib.Omega.{arith}
use mathlib.Core.Logic.{inl, inr}
use service_binding_operator.Base.Tests.{if◌then◌else◌, nat_eq, Bool-cases}
use service_binding_operator.Base.Base64.{IsScalar-byte}

digit_char : ℕ → Char
digit_char n = char ((48 + n % 10) % 256) (IsScalar-byte (48 + n % 10))

-- The digits in front of the rest. A number has fewer digits than the fuel, which is one more
-- than the number.
digits : (fuel n : ℕ) → String → String
unfolding digit_char
digits zero n rest = rest
digits (suc fuel) n rest =
    let more = digits fuel (n / 10) (String.◌∷◌ (digit_char n) rest) in
    if nat_eq (n / 10) 0 then String.◌∷◌ (digit_char n) rest else more

unfoldable pub decimal : ℕ → String
unfolding digits
decimal n = digits (suc n) n String.[]

decimal_runs : decimal 2047 ≡ "2047"
unfolding decimal digits digit_char
decimal_runs = refl

-- Any fuel above the number gives the same digits.
digits_enough :
    (f g n : ℕ) (rest : String) → suc n ≤ f → suc n ≤ g → digits f n rest ≡ digits g n rest
unfolding digits
digits_enough zero g n rest h k = absurd (omega arith)
digits_enough (suc f) zero n rest h k = absurd (omega arith)
digits_enough (suc f) (suc g) n rest h k = elim (Bool-cases (nat_eq (n / 10) 0)) [
  | inl e ↦ rw e refl
  | inr e ↦ rw e (digits_enough f g (n / 10) _ (ground arith) (ground arith))
]
