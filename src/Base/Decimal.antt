-- ===== src/Base/Decimal.antt =====
-- `%u` of the C library's formatted output: the decimal digits of an unsigned number, and what a
-- reader makes of them.
use Prim.Native.Nat.{ℕ, zero, suc, ◌+◌, ◌*◌, ◌/◌, ◌%◌, ◌^◌, ◌≤◌, ◌<◌, ◌-◌}
use mathlib.Core.Path.{◌≡◌, refl}
use mathlib.Core.List.{List, [], ◌∷◌, ◌++◌}
use native.Mathlib.Nat.{pow-suc}
use native.Mathlib.Omega.{arith}
use bear_tls.Base.Tests.{ltb, if◌then◌else◌}
use bear_tls.Base.Lists.{length, length-append}

-- At most `n` digits, the lowest ones.
unfoldable pub decimal_digits : ℕ → ℕ → List ℕ
decimal_digits zero n = []
decimal_digits (suc f) n =
    let higher = decimal_digits f (n / 10) in
    if ltb n 10 then (48 + n) ∷ [] else higher ++ ((48 + n % 10) ∷ [])

-- An `unsigned` has at most ten digits.
unfoldable pub decimal : ℕ → List ℕ
unfolding decimal_digits
decimal n = decimal_digits 10 n

-- The number that a run of digits stands for, read from the left.
unfoldable pub read_decimal : ℕ → List ℕ → ℕ
read_decimal acc [] = acc
read_decimal acc (c ∷ cs) = read_decimal (acc * 10 + (c - 48)) cs

read_decimal-append :
    (acc : ℕ) (xs ys : List ℕ) → read_decimal acc (xs ++ ys) ≡ read_decimal (read_decimal acc xs) ys
unfolding read_decimal
read_decimal-append acc [] ys = refl
read_decimal-append acc (c ∷ xs) ys = read_decimal-append (acc * 10 + (c - 48)) xs ys

read_decimal-decimal_digits :
    (f n : ℕ) → 0 < f → n < 10 ^ f → read_decimal 0 (decimal_digits f n) ≡ n
unfolding decimal_digits read_decimal
read_decimal-decimal_digits zero n p h = absurd (omega arith)
read_decimal-decimal_digits (suc zero) n p h = ground arith
read_decimal-decimal_digits (suc (suc f)) n p h = ground (
  arith,
  read_decimal-append 0 (decimal_digits (suc f) (n / 10)) ((48 + n % 10) ∷ []),
  read_decimal-decimal_digits (suc f) (n / 10) (omega arith) (omega (arith, pow-suc 10 (suc f))),
)

pub read_decimal-decimal : (n : ℕ) → n < 2 ^ 32 → read_decimal 0 (decimal n) ≡ n
unfolding decimal
read_decimal-decimal n h = read_decimal-decimal_digits 10 n (omega arith) (omega arith)

length-decimal_digits : (f n : ℕ) → length (decimal_digits f n) ≤ f
unfolding decimal_digits
length-decimal_digits zero n = omega arith
length-decimal_digits (suc f) n = ground (
  arith,
  length-append (decimal_digits f (n / 10)) ((48 + n % 10) ∷ []),
  length-decimal_digits f (n / 10),
)

pub length-decimal : (n : ℕ) → length (decimal n) ≤ 10
unfolding decimal
length-decimal n = length-decimal_digits 10 n
