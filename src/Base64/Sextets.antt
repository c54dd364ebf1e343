-- ===== src/Base64/Sextets.antt =====
-- Six bits at a time: what `push_sextet` leaves in the low bits, and the alphabet.
use bear_tls.Base.{
  ℕ, ◌+◌, ◌*◌, ◌/◌, ◌%◌, ◌^◌, ◌<◌, ◌≡◌, refl, Bool, true, false, ◌&&◌, ◌==◌, Option, none, some,
  arith, bit_or-shifted, holds_below, holds_below_sound, not,
}
use bear_tls.Base64.{from64, alphabet_at, push_sextet}

pub push_sextet_sum : (b v : ℕ) → v < 64 → push_sextet b v ≡ b * 64 % 2 ^ 32 + v
unfolding push_sextet
push_sextet_sum b v h =
    let e : b * 2 ^ 6 % 2 ^ 32 ≡ b % 2 ^ 26 * 2 ^ 6 = omega arith in
    rw (e, bit_or-shifted 6 (b % 2 ^ 26) v h)

-- Each byte that a group of four gives back, from what the value before left in its low bits.
pub push_first : (b v : ℕ) → v < 64 → push_sextet b v % 64 ≡ v
push_first b v h = omega (arith, push_sextet_sum b v h)

pub push_second :
    (b u v : ℕ)
    → v < 64
    → b % 64 ≡ u
    → (push_sextet b v / 16 % 256 ≡ u * 4 + v / 16) × (push_sextet b v % 16 ≡ v % 16)
push_second b u v h e = (omega (arith, push_sextet_sum b v h), omega (arith, push_sextet_sum b v h))

pub push_third :
    (b u v : ℕ)
    → v < 64
    → b % 16 ≡ u
    → (push_sextet b v / 4 % 256 ≡ u * 16 + v / 4) × (push_sextet b v % 4 ≡ v % 4)
push_third b u v h e = (omega (arith, push_sextet_sum b v h), omega (arith, push_sextet_sum b v h))

pub push_fourth : (b u v : ℕ) → v < 64 → b % 4 ≡ u → push_sextet b v % 256 ≡ u * 64 + v
push_fourth b u v h e = omega (arith, push_sextet_sum b v h)

abbrev reads : (ℕ → Option ℕ) → ℕ → ℕ → Bool
reads decode c k = elim (decode c) [ none ↦ false | some v ↦ v == k && not (c == b'=') ]

reads_sound :
    (decode : ℕ → Option ℕ) (c k : ℕ)
    → reads decode c k ≡ true
    → (decode c ≡ some k) × ((c == b'=') ≡ false)
reads_sound decode c k h = ground arith

alphabet_table : holds_below (λ k. reads from64 (alphabet_at k) k) 64 ≡ true
unfolding holds_below from64 alphabet_at
alphabet_table = refl

pub from64-alphabet_at :
    (k : ℕ) → k < 64 → (from64 (alphabet_at k) ≡ some k) × ((alphabet_at k == b'=') ≡ false)
from64-alphabet_at k h =
    reads_sound from64 (alphabet_at k) k
      (holds_below_sound (λ k. reads from64 (alphabet_at k) k) k 64 h alphabet_table)
