-- ===== src/Base/Text.antt =====
-- The functions of Go's `strings` package that the program calls. It cuts texts only at ASCII
-- characters, so characters may stand for bytes.
use Prim.Native.Char.{Char, code}
use Prim.Native.Nat.{ℕ, suc, compare, Ordering}
use Prim.Native.String.{String, ◌++◌ as ◌<>◌}
use mathlib.Core.Path.{◌≡◌, refl}
use mathlib.Core.Bool.{Bool, true, false}
use mathlib.Core.Option.{Option, none, some}
use mathlib.Core.List.{List, [], ◌∷◌}
use native.Mathlib.Omega.{arith}
use text.Mathlib.TextEquality.{Char-path}
use text.Mathlib.TextLemmas.{nil-append, cons-append}
use service_binding_operator.Base.Tests.{if◌then◌else◌}

abbrev pub char_eq : Char → Char → Bool
char_eq c d = elim (compare (code c) (code d)) [ Ordering.eq ↦ true | _ ↦ false ]

-- `s[len(prefix):]` if `strings.HasPrefix(s, prefix)`.
unfoldable pub strip_prefix : String → String → Option String
strip_prefix String.[] s = some s
strip_prefix (String.◌∷◌ c p) String.[] = none
strip_prefix (String.◌∷◌ c p) (String.◌∷◌ d s) = if char_eq c d then strip_prefix p s else none

abbrev pub is_some {ℓ} : {A : Type ℓ} → Option A → Bool
is_some none = false
is_some (some _) = true

-- `strings.HasPrefix(s, prefix)`
unfoldable pub has_prefix : String → String → Bool
unfolding strip_prefix
has_prefix s p = is_some (strip_prefix p s)

-- Puts a character in front of the first text.
abbrev push : Char → List String → List String
push c [] = (String.◌∷◌ c String.[]) ∷ []
push c (w ∷ ws) = (String.◌∷◌ c w) ∷ ws

-- `strings.Split(s, sep)` for a separator of one character.
unfoldable pub split : Char → String → List String
split sep String.[] = String.[] ∷ []
split sep (String.◌∷◌ c s) =
    let rest = split sep s in if char_eq c sep then String.[] ∷ rest else push c rest

-- `strings.Join(words, sep)`
unfoldable pub join : String → List String → String
join sep [] = String.[]
join sep (w ∷ []) = w
join sep (w ∷ (v ∷ ws)) = w <> (sep <> join sep (v ∷ ws))

-- `strings.Count(s, c)` for a text of one character.
unfoldable pub count : Char → String → ℕ
count x String.[] = 0
count x (String.◌∷◌ c s) = let n = count x s in if char_eq c x then suc n else n

-- `strings.SplitN(s, sep, 2)`: what stands before the first separator, and what stands behind it.
unfoldable pub cut : Char → String → String × Option String
cut sep String.[] = (String.[], none)
cut sep (String.◌∷◌ c s) =
    let (before, behind) = cut sep s in
    if char_eq c sep then (String.[], some s) else (String.◌∷◌ c before, behind)

split_runs : split "," "a=1,,b" ≡ "a=1" ∷ "" ∷ "b" ∷ []
unfolding split
split_runs = refl

-- A prefix is stripped off what it was put in front of.
pub strip_prefix-append : (p s : String) → strip_prefix p (p <> s) ≡ some s
unfolding strip_prefix
strip_prefix-append String.[] s = rw (nil-append s)
strip_prefix-append (String.◌∷◌ c p) s =
    rw (cons-append c p s) (ground (arith, strip_prefix-append p s))

-- What is left behind a stripped prefix is the rest of the text.
pub strip_prefix-eq-some : (p s : String) {r : String} → strip_prefix p s ≡ some r → s ≡ p <> r
unfolding strip_prefix
strip_prefix-eq-some String.[] s h = rw nil-append (ground arith)
strip_prefix-eq-some (String.◌∷◌ c p) String.[] h = cc
strip_prefix-eq-some (String.◌∷◌ c p) (String.◌∷◌ d s) {r} h =
    rw cons-append (ground (arith, Char-path c d, strip_prefix-eq-some p s {r = r}))

-- A text that begins with two texts begins with the first one.
pub strip_prefix-longer : (p q s : String) → is_some (strip_prefix p ((p <> q) <> s)) ≡ true
unfolding strip_prefix
strip_prefix-longer String.[] q s = refl
strip_prefix-longer (String.◌∷◌ c p) q s =
    rw (cons-append c p q, cons-append c (p <> q) s) (ground (arith, strip_prefix-longer p q s))
