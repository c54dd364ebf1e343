-- ===== src/Hashcash/Solve.antt =====
-- `wm_hashcash_solve` (BearTLS/wm_https.c) as its caller sees it.
use bear_tls.Base.{
  ℕ, zero, suc, ◌+◌, ◌%◌, ◌^◌, ◌≤◌, ◌<◌, ◌≡◌, refl, ◌∙◌, Bool, true, false, Bool-cases, inl, inr,
  List, [], arith, length, if◌then◌else◌, ◌==◌, ltb, some, Option-cases, All, ◌||◌, not, ◌⊎◌,
  lt→ltb, ltb→lt, ltb→le, ==_iff,
}
use bear_tls.Base64.{b64_decode, b64_encode, group_chars}
use bear_tls.Base64.RoundTrip.{encoded, b64_encode-eq-encoded, b64_decode-b64_encode}
use bear_tls.Hashcash.{
  Sha256, Run, hashed, Outcome, found, failed, out_of_rounds, store_be32, threshold, attempt,
  check_clock, chunk_loop, search_loop, finish, solve_token, solve, elapsed, timeout_ms,
}
use bear_tls.Hashcash.Search.{IsFirst, score, search_found, search_finds}

store_be32-bytes : (v : ℕ) → All (λ x. x < 256) (store_be32 v)
unfolding store_be32
store_be32-bytes v = omega arith

length-store_be32 : (v : ℕ) → length (store_be32 v) ≡ 4
unfolding store_be32
length-store_be32 v = refl

length-encoded_word : (v : ℕ) → length (encoded (store_be32 v)) ≡ 6
unfolding store_be32 encoded group_chars
length-encoded_word v = refl

module _ (sha : Sha256) (ticks : ℕ → ℕ) where
  solve_token_found :
      (token : List ℕ) (easiness size : ℕ) (out : List ℕ)
      → length token ≡ 48
      → solve_token sha ticks token easiness size ≡ some out
      → (nonce : ℕ) × IsFirst sha ticks token (threshold easiness) 0 nonce
        × (b64_encode (store_be32 nonce) size ≡ some out)
  unfolding solve_token
  solve_token_found token easiness size out h e = go _ refl e
    where
      start : Run
      start = record { reads = 1; last_tick = ticks 0; messages = [] }

      go :
          (r : Outcome)
          → search_loop sha ticks token (ticks 0) (threshold easiness) (2 ^ 32) 0 start ≡ r
          → finish sha ticks size r ≡ some out
          → (nonce : ℕ) × IsFirst sha ticks token (threshold easiness) 0 nonce
            × (b64_encode (store_be32 nonce) size ≡ some out)
      go (found nonce run) s f = (
        nonce,
        search_found sha ticks token h (ticks 0) (threshold easiness) (2 ^ 32) 0 start nonce run s
            (omega arith),
        unfold finish in f,
      )
      go (failed run) s f = unfold finish in cc
      go out_of_rounds s f = unfold finish in cc

  solve_accepted :
      (text : List ℕ) (easiness size : ℕ) (has_prefix : Bool) (out : List ℕ)
      → solve sha ticks (some text) easiness has_prefix size ≡ some out
      → (token : List ℕ) × (b64_decode (some text) 48 ≡ some token)
        × (length token ≡ 48)
        × (solve_token sha ticks token easiness size ≡ some out)
  unfolding solve
  solve_accepted text easiness size has_prefix out e =
      elim (Bool-cases (not has_prefix || size == 0 || ltb 255 easiness)) [
        | inl bad ↦ cc (rw bad at e)
        | inr good ↦ elim (Option-cases (b64_decode (some text) 48)) [
          | inl d ↦ cc (rw (good, d, solve) at e)
          | inr (token, d) ↦ elim (Bool-cases (length token == 48)) [
            | inl full ↦
                (token, d, (==_iff (length token) 48).0 full, rw (good, d, solve, full) at e)
            | inr short ↦ cc (rw (good, d, solve, short) at e)
          ]
        ]
      ]

  -- A text that is returned decodes to the four bytes of a nonce whose hash, with the token
  -- repeated 262144 times, is within the threshold of the easiness; and any `m` is not below that
  -- nonce, or has a hash that is not within the threshold.
  pub solve_sound :
      (text : List ℕ) (easiness size : ℕ) (has_prefix : Bool) (out : List ℕ) (m : ℕ)
      → solve sha ticks (some text) easiness has_prefix size ≡ some out
      → (token : List ℕ) × (b64_decode (some text) 48 ≡ some token)
        × (length token ≡ 48)
        × (nonce : ℕ) × (nonce ≤ 0xffff_ffff)
        × (score sha ticks token nonce ≤ threshold easiness)
        × ((nonce ≤ m) ⊎ (threshold easiness < score sha ticks token m))
        × (b64_decode (some out) 4 ≡ some (store_be32 nonce))
  solve_sound text easiness size has_prefix out m e =
      let (token, d, l, run) = solve_accepted text easiness size has_prefix out e in
      let (nonce, (lo, hi, hit, smaller_miss), enc) =
        solve_token_found token easiness size out l run in
      (
        token,
        d,
        l,
        nonce,
        hi,
        hit,
        elim (Bool-cases (ltb m nonce)) [
          | inl below ↦ inr (smaller_miss m (omega arith) (ltb→lt _ _ below))
          | inr above ↦ inl (ltb→le _ _ above)
        ],
        b64_decode-b64_encode size 4 (store_be32 nonce) out (store_be32-bytes nonce) enc
            (omega (arith, length-store_be32 nonce)),
      )

  module _ (in_time : (n : ℕ) → elapsed (ticks n) (ticks 0) < timeout_ms) where
    checked_in_time :
        (nonce i : ℕ) (run : Run)
        → (if i % 32 == 31 then check_clock sha ticks (ticks 0) nonce i run else (run, false)).1
          ≡ false
    unfolding check_clock
    checked_in_time nonce i run =
        let h = lt→ltb _ _ (in_time run.reads) in
        elim (Bool-cases (i % 32 == 31)) [ inl due ↦ rw (due, h) | inr not_due ↦ rw not_due ]

    chunk_loop_hashed :
        (token : List ℕ) (nonce left i : ℕ) (ctx : sha.Context) (run : Run)
        → (d : List ℕ) × (r : Run) × (chunk_loop sha ticks token (ticks 0) nonce left i ctx run
            ≡ hashed d r)
    unfolding chunk_loop
    chunk_loop_hashed token nonce zero i ctx run = (_, _, refl)
    chunk_loop_hashed token nonce (suc left) i ctx run =
        rw (checked_in_time nonce i run, chunk_loop)
          (chunk_loop_hashed token nonce left (i + 1) _ _)

    pub attempt_hashed :
        (token : List ℕ) (nonce : ℕ) (run : Run)
        → (d : List ℕ) × (r : Run) × (attempt sha ticks token (ticks 0) nonce run ≡ hashed d r)
    unfolding attempt
    attempt_hashed token nonce run = chunk_loop_hashed token nonce _ 0 _ run

    solve_token_finds :
        (token : List ℕ) (easiness size hit : ℕ)
        → length token ≡ 48
        → 7 ≤ size
        → hit < 2 ^ 32
        → score sha ticks token hit ≤ threshold easiness
        → (out : List ℕ) × (solve_token sha ticks token easiness size ≡ some out)
    unfolding solve_token
    solve_token_finds token easiness size hit l hs hh good =
        let (nonce, r, e) =
          search_finds sha ticks token l (ticks 0) (threshold easiness) (2 ^ 32) 0
            (record { reads = 1; last_tick = ticks 0; messages = [] }) hit (attempt_hashed token)
            (omega arith) (omega arith) (omega arith) good in
        let fits : ltb (length (encoded (store_be32 nonce))) size ≡ true =
          lt→ltb _ _ (omega (arith, length-encoded_word nonce)) in
        (
          encoded (store_be32 nonce),
          rw e (
              unfold finish in
              (b64_encode-eq-encoded size (store_be32 nonce) (store_be32-bytes nonce) ∙ rw fits)),
        )

    -- If the clock never shows the timeout, the easiness is at most 255, the text holds a token and
    -- the array has room for 7 characters, then the call returns a text as soon as some 32-bit
    -- nonce has a hash within the threshold.
    pub solve_finds :
        (text token : List ℕ) (easiness size hit : ℕ)
        → b64_decode (some text) 48 ≡ some token
        → length token ≡ 48
        → easiness ≤ 255
        → 7 ≤ size
        → hit < 2 ^ 32
        → score sha ticks token hit ≤ threshold easiness
        → (out : List ℕ) × (solve sha ticks (some text) easiness true size ≡ some out)
    solve_finds text token easiness size hit d l he hs hh good =
        let (out, e) = solve_token_finds token easiness size hit l hs hh good in
        let ok : (not true || size == 0 || ltb 255 easiness) ≡ false = ground arith in
        let full : (length token == 48) ≡ true = (==_iff _ _).1 l in
        (out, unfold solve in rw (ok, d, solve, full) e)
