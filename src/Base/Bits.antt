-- ===== src/Base/Bits.antt =====
-- `|` of two disjoint fields is their sum, at every width, from the digit recursion that the native
-- operation stands for.
use Prim.Native.Nat.{
  ℕ, zero, suc, ◌+◌, ◌*◌, ◌/◌, ◌%◌, ◌^◌, ◌≤◌, ◌<◌, max, bit_or, digits, bit_or-bitwise,
}
use mathlib.Core.Path.{◌≡◌, refl, sym, ap, ◌∙◌}
use native.Mathlib.Nat.{pow-suc}
use native.Mathlib.Omega.{arith}

abbrev or_digits : ℕ → ℕ → ℕ → ℕ
or_digits n a b = digits (λ b. b) max n a b

or_digits_nothing : (f b : ℕ) → or_digits f 0 b ≡ b
or_digits_nothing zero b = refl
or_digits_nothing (suc f) b = refl

-- Any two fuels that are at least the first number agree.
or_digits_agree : (top a b f g : ℕ) → a < top → a ≤ f → a ≤ g → or_digits f a b ≡ or_digits g a b
or_digits_agree zero a b f g below x y = absurd (omega arith)
or_digits_agree (suc top) zero b f g below x y = or_digits_nothing f b ∙ sym (or_digits_nothing g b)
or_digits_agree (suc top) (suc a) b zero g below x y = absurd (omega arith)
or_digits_agree (suc top) (suc a) b (suc f) zero below x y = absurd (omega arith)
or_digits_agree (suc top) (suc a) b (suc f) (suc g) below x y =
    let halved =
      or_digits_agree top (suc a / 2) (b / 2) f g (omega arith) (omega arith) (omega arith) in
    omega (arith, halved)

zero-bit_or : (b : ℕ) → bit_or 0 b ≡ b
zero-bit_or b = bit_or-bitwise 0 b

-- The law for the lowest digit.
bit_or-halves : (a b : ℕ) → bit_or a b ≡ bit_or (a / 2) (b / 2) * 2 + max (a % 2) (b % 2)
bit_or-halves zero b = omega (arith, zero-bit_or b, zero-bit_or (b / 2))
bit_or-halves (suc a) b = omega (
  arith,
  bit_or-bitwise (suc a) b,
  bit_or-bitwise (suc a / 2) (b / 2),
  or_digits_agree (suc a) (suc a / 2) (b / 2) a (suc a / 2) (omega arith) (omega arith)
      (omega arith),
)

bit_or-zero_below : (n a : ℕ) → a ≤ n → bit_or a 0 ≡ a
bit_or-zero_below n zero h = zero-bit_or 0
bit_or-zero_below zero (suc a) h = absurd (omega arith)
bit_or-zero_below (suc n) (suc a) h =
    omega (arith, bit_or-halves (suc a) 0, bit_or-zero_below n (suc a / 2) (omega arith))

pow_double : (q k : ℕ) → q * 2 ^ suc k ≡ 2 * (q * 2 ^ k)
pow_double q k = omega (arith, ap (λ (t : ℕ). q * t) (pow-suc 2 k))

-- `(q << k) | r` for an `r` of `k` bits.
pub bit_or-shifted : (k q r : ℕ) → r < 2 ^ k → bit_or (q * 2 ^ k) r ≡ q * 2 ^ k + r
bit_or-shifted zero q r h =
    let e : r ≡ 0 = omega arith in
    let f : q * 2 ^ 0 ≡ q = omega arith in
    rw (e, f) (omega (arith, bit_or-zero_below q q (omega arith)))
bit_or-shifted (suc k) q r h = ground (
  arith,
  bit_or-halves (q * 2 ^ suc k) r,
  pow_double q k,
  pow-suc 2 k,
  bit_or-shifted k q (r / 2) (omega (arith, pow-suc 2 k)),
)
