-- ===== src/Base/Base64.antt =====
-- `base64.StdEncoding.DecodeString`. A Go string is a sequence of bytes; it is kept as a text with
-- one character for each byte.
use Prim.Native.Nat.{ℕ, ◌+◌, ◌*◌, ◌-◌, ◌/◌, ◌%◌, compare, Ordering}
use Prim.Native.Char.{Char, char, code, IsScalar}
use Prim.Native.String.{String}
use mathlib.Core.Path.{◌≡◌}
use mathlib.Core.Bool.{Bool, true, false, ◌&&◌, ◌||◌}
use mathlib.Core.Option.{Option, none, some}
use mathlib.Core.List.{List, [], ◌∷◌}
use native.Mathlib.Omega.{arith}
use service_binding_operator.Base.Tests.{if◌then◌else◌, nat_eq}

abbrev leb : ℕ → ℕ → Bool
leb a b = elim (compare a b) [ Ordering.gt ↦ false | _ ↦ true ]

abbrev within : ℕ → ℕ → ℕ → Bool
within lo hi c = leb lo c && leb c hi

-- The six bits that a character of the alphabet stands for.
digit : ℕ → Option ℕ
digit c =
    if within b'A' b'Z' c
    then some (c - b'A')
    else if within b'a' b'z' c
    then some (c - b'a' + 26)
    else if within b'0' b'9' c
    then some (c - b'0' + 52)
    else if nat_eq c b'+'
    then some 62
    else if nat_eq c b'/'
    then some 63
    else none

pub compare-byte : (n : ℕ) → compare (n % 256) 55296 ≡ Ordering.lt
compare-byte n = ground arith

pub IsScalar-byte : (n : ℕ) → IsScalar (n % 256)
IsScalar-byte n = rw (compare-byte n, IsScalar) tt

byte : ℕ → Char
byte n = char (n % 256) (IsScalar-byte n)

digits_of : String → List ℕ
digits_of String.[] = []
digits_of (String.◌∷◌ c s) =
    let rest = digits_of s in
    if nat_eq (code c) 10 || nat_eq (code c) 13 then rest else code c ∷ rest

cons_byte : ℕ → Option String → Option String
unfolding byte
cons_byte n none = none
cons_byte n (some s) = some (String.◌∷◌ (byte n) s)

-- The three bytes of four digits.
decode_quad : ℕ → ℕ → ℕ → ℕ → Option String → Option String
unfolding cons_byte
decode_quad a b c d rest =
    cons_byte (a * 4 + b / 16) (cons_byte (b % 16 * 16 + c / 4) (cons_byte (c % 4 * 64 + d) rest))

-- The last quad, whose third and fourth places may be padding.
decode_last : ℕ → ℕ → ℕ → ℕ → Option String
unfolding decode_quad digit
decode_last a b c d = elim (digit a) [
  | none ↦ none
  | some a ↦ elim (digit b) [
    | none ↦ none
    | some b ↦
        if nat_eq c b'=' && nat_eq d b'='
        then cons_byte (a * 4 + b / 16) (some String.[])
        else elim (digit c) [
          | none ↦ none
          | some c ↦
              if nat_eq d b'='
              then cons_byte (a * 4 + b / 16) (cons_byte (b % 16 * 16 + c / 4) (some String.[]))
              else elim (digit d) [ none ↦ none | some d ↦ decode_quad a b c d (some String.[]) ]
        ]
  ]
]

decode_digits : List ℕ → Option String
unfolding decode_last
decode_digits [] = some String.[]
decode_digits (a ∷ (b ∷ (c ∷ (d ∷ [])))) = decode_last a b c d
decode_digits (a ∷ (b ∷ (c ∷ (d ∷ (e ∷ ds))))) =
    let rest = decode_digits (e ∷ ds) in
    elim (digit a) [
      | none ↦ none
      | some a ↦ elim (digit b) [
        | none ↦ none
        | some b ↦ elim (digit c) [
          | none ↦ none
          | some c ↦ elim (digit d) [ none ↦ none | some d ↦ decode_quad a b c d rest ]
        ]
      ]
    ]
decode_digits _ = none

-- `none` is a corrupt input.
unfoldable pub decode_string : String → Option String
unfolding digits_of decode_digits
decode_string s = decode_digits (digits_of s)
