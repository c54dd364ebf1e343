-- ===== src/Hashcash/Search.antt =====
-- The search of `wm_hashcash_solve` (BearTLS/wm_https.c): what it returns solves the token, with
-- the smallest nonce; and without a timeout it finds a solution where there is one.
use bear_tls.Base.{
  ℕ, zero, suc, ◌+◌, ◌≤◌, ◌<◌, ◌≡◌, refl, sym, ap, ◌∙◌, false, Bool-cases, inl, inr, List, ◌++◌,
  arith, length, repeat, if◌then◌else◌, ◌==◌, leb, leb→le, leb→lt, ==_iff, ◌⊎◌,
}
use bear_tls.Hashcash.{
  Sha256, Run, Attempt, late, hashed, found, failed, store_be32, load_be32, attempt, tell_tried,
  search_loop,
}
use bear_tls.Hashcash.Stream.{sha256, attempt_hash}

found-injective : {m n : ℕ} {r r' : Run} → found m r ≡ found n r' → m ≡ n
found-injective e = cc

module _ (sha : Sha256) (ticks : ℕ → ℕ) (token : List ℕ) where
  -- The leading 32 bits of the hash of a nonce and the repeated token.
  abbrev pub score : ℕ → ℕ
  score nonce = load_be32 (sha256 sha ticks (store_be32 nonce ++ repeat 262144 token))

  -- `nonce` is the first one from `from` on whose score is within the limit.
  abbrev pub IsFirst : ℕ → ℕ → ℕ → Type 0
  IsFirst limit from nonce =
      (from ≤ nonce)
      × (nonce ≤ 0xffff_ffff)
      × (score nonce ≤ limit)
      × ((m : ℕ) → from ≤ m → m < nonce → limit < score m)

module _ (sha : Sha256) (ticks : ℕ → ℕ) (token : List ℕ) (sized : length token ≡ 48) where
  attempt_cases :
      (start nonce : ℕ) (run : Run)
      → ((r : Run) × (attempt sha ticks token start nonce run ≡ late r))
        ⊎ ((d : List ℕ) × (r : Run) × (attempt sha ticks token start nonce run ≡ hashed d r)
            × (load_be32 d ≡ score sha ticks token nonce))
  attempt_cases start nonce run = go (attempt sha ticks token start nonce run) refl
    where
      go :
          (a : Attempt)
          → attempt sha ticks token start nonce run ≡ a
          → ((r : Run) × (attempt sha ticks token start nonce run ≡ late r))
            ⊎ ((d : List ℕ) × (r : Run) × (attempt sha ticks token start nonce run ≡ hashed d r)
                × (load_be32 d ≡ score sha ticks token nonce))
      go (late r) e = inl (r, e)
      go (hashed d r) e =
          inr (d, r, e, ap load_be32 (attempt_hash sha ticks token start nonce run r d sized e))

  search_step :
      (start limit rounds from : ℕ) (run r : Run) (d : List ℕ)
      → attempt sha ticks token start from run ≡ hashed d r
      → load_be32 d ≡ score sha ticks token from
      → search_loop sha ticks token start limit (suc rounds) from run ≡ (
          if leb (score sha ticks token from) limit
          then found from r
          else if from == 0xffff_ffff
          then failed (tell_tried sha ticks start from r)
          else search_loop sha ticks token start limit rounds
              (from + 1)
              (tell_tried sha ticks start from r))
  unfolding search_loop
  search_step start limit rounds from run r d a s = rw (a, search_loop, s) (ground arith)

  search_late :
      (start limit rounds from : ℕ) (run r : Run)
      → attempt sha ticks token start from run ≡ late r
      → search_loop sha ticks token start limit (suc rounds) from run ≡ failed r
  unfolding search_loop
  search_late start limit rounds from run r a = rw (a, search_loop)

  IsFirst-earlier :
      (limit from nonce : ℕ)
      → limit < score sha ticks token from
      → IsFirst sha ticks token limit (from + 1) nonce
      → IsFirst sha ticks token limit from nonce
  IsFirst-earlier limit from nonce miss (lo, hi, hit, none_before) = (
    omega arith,
    hi,
    hit,
    λ m p q. elim (Bool-cases (m == from)) [
      | inl same ↦ rw ((==_iff m from).0 same) miss
      | inr other ↦ none_before m (ground arith) q
    ],
  )

  pub search_found :
      (start limit rounds from : ℕ) (run : Run) (nonce : ℕ) (run' : Run)
      → search_loop sha ticks token start limit rounds from run ≡ found nonce run'
      → from ≤ 0xffff_ffff
      → IsFirst sha ticks token limit from nonce
  search_found start limit zero from run nonce run' e b = unfold search_loop in cc
  search_found start limit (suc rounds) from run nonce run' e b =
      elim (attempt_cases start from run) [
        | inl (r, a) ↦ cc (search_late start limit rounds from run r a)
        | inr (d, r, a, s) ↦
            let step = search_step start limit rounds from run r d a s in
            elim (Bool-cases (leb (score sha ticks token from) limit)) [
              | inl hit ↦
                  let same : from ≡ nonce = found-injective (sym (rw hit at step) ∙ e) in
                  rw (← same) (omega arith, b, leb→le _ _ hit, λ m p q. absurd (omega arith))
              | inr miss ↦ elim (Bool-cases (from == 0xffff_ffff)) [
                | inl last ↦ cc (rw (miss, last) at step)
                | inr more ↦ IsFirst-earlier limit from nonce (leb→lt _ _ miss) (
                    search_found start limit rounds (from + 1) (tell_tried sha ticks start from r)
                      nonce run' (sym (rw (miss, more) at step) ∙ e) (ground arith))
              ]
            ]
      ]

  pub search_finds :
      (start limit rounds from : ℕ) (run : Run) (hit : ℕ)
      → ((n : ℕ) (q : Run)
          → (d : List ℕ) × (r : Run) × (attempt sha ticks token start n q ≡ hashed d r))
      → from ≤ hit
      → hit ≤ 0xffff_ffff
      → hit < from + rounds
      → score sha ticks token hit ≤ limit
      → (nonce : ℕ) × (r : Run) × (search_loop sha ticks token start limit rounds from run
          ≡ found nonce r)
  search_finds start limit zero from run hit in_time lo hi fuel good = absurd (omega arith)
  search_finds start limit (suc rounds) from run hit in_time lo hi fuel good =
      let (d, r, a) = in_time from run in
      let s : load_be32 d ≡ score sha ticks token from =
        ap load_be32 (attempt_hash sha ticks token start from run r d sized a) in
      let step = search_step start limit rounds from run r d a s in
      elim (Bool-cases (leb (score sha ticks token from) limit)) [
        | inl now ↦ (from, r, step ∙ rw now)
        | inr miss ↦ elim (Bool-cases (from == hit)) [
          | inl same ↦
              let far = leb→lt _ _ miss in
              let e : from ≡ hit = (==_iff from hit).0 same in
              absurd (omega (arith, far, rw (← e) at good))
          | inr other ↦
              let more : (from == 0xffff_ffff) ≡ false = ground arith in
              let (nonce, r', e) =
                search_finds start limit rounds (from + 1) (tell_tried sha ticks start from r) hit
                  in_time (ground arith) hi (omega arith) good in
              (nonce, r', step ∙ rw (miss, more) e)
        ]
      ]
