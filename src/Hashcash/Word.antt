-- ===== src/Hashcash/Word.antt =====
-- Big-endian words and the difficulty of BearTLS/wm_https.c.
use bear_tls.Base.{
  ℕ, zero, suc, ◌+◌, ◌-◌, ◌*◌, ◌/◌, ◌%◌, ◌^◌, ◌≤◌, ◌<◌, ◌≡◌, refl, [], ◌∷◌, arith, bit_or-shifted,
  holds_below, holds_below_sound, ltb, leb, ◌||◌, true,
}
use bear_tls.Hashcash.{load_be32, store_be32, threshold}

load_be32_sum :
    (a b c d : ℕ)
    → b < 256
    → c < 256
    → d < 256
    → load_be32 (a ∷ b ∷ c ∷ d ∷ []) ≡ a * 2 ^ 24 + b * 2 ^ 16 + c * 2 ^ 8 + d
unfolding load_be32
load_be32_sum a b c d hb hc hd =
    let e : a * 2 ^ 24 + b * 2 ^ 16 ≡ (a * 256 + b) * 2 ^ 16 = omega arith in
    let f : (a * 256 + b) * 2 ^ 16 + c * 2 ^ 8 ≡ ((a * 256 + b) * 256 + c) * 2 ^ 8 = omega arith in
    rw
      (
        bit_or-shifted 24 a (b * 2 ^ 16) (omega arith),
        e,
        bit_or-shifted 16 (a * 256 + b) (c * 2 ^ 8) (omega arith),
        f,
        bit_or-shifted 8 ((a * 256 + b) * 256 + c) d hd,
      )
      (omega arith)

-- Reading back what was stored gives the word, for every 32-bit word.
pub load_be32-store_be32 : (v : ℕ) → v < 2 ^ 32 → load_be32 (store_be32 v) ≡ v
unfolding store_be32
load_be32-store_be32 v h =
    rw
      (load_be32_sum (v / 2 ^ 24 % 256) (v / 2 ^ 16 % 256) (v / 2 ^ 8 % 256) (v % 256) (omega arith)
        (omega arith) (omega arith))
      (omega arith)

threshold_table : holds_below (λ e. ltb (threshold e) (threshold (e + 1)) || leb 255 e) 256 ≡ true
unfolding holds_below threshold
threshold_table = refl

threshold_step : (e : ℕ) → e < 255 → threshold e < threshold (e + 1)
threshold_step e h = ground (
  arith,
  holds_below_sound (λ e. ltb (threshold e) (threshold (e + 1)) || leb 255 e) e 256 (omega arith)
      threshold_table,
)

threshold_rises : (d e : ℕ) → e + suc d ≤ 255 → threshold e < threshold (e + suc d)
threshold_rises zero e h = threshold_step e (omega arith)
threshold_rises (suc d) e h =
    let s : e + suc (suc d) ≡ e + suc d + 1 = omega arith in
    rw s
      (omega (arith, threshold_rises d e (omega arith), threshold_step (e + suc d) (omega arith)))

-- A larger easiness gives a larger threshold, up to the largest, 255.
pub threshold_mono : (e e' : ℕ) → e < e' → e' ≤ 255 → threshold e < threshold e'
threshold_mono e e' h m =
    let s : e' ≡ e + suc (e' - e - 1) = omega arith in
    rw s (threshold_rises (e' - e - 1) e (omega arith))
