-- ===== src/Hashcash/Stream.antt =====
-- What `wm_hashcash_solve` (BearTLS/wm_https.c) hashes for one nonce, whatever its pieces.
use bear_tls.Base.{
  ℕ, zero, suc, ◌+◌, ◌*◌, ◌%◌, ◌≡◌, refl, ap, ◌∙◌, Bool, false, List, ◌++◌, append_assoc, arith,
  length, take, drop, repeat, repeat-add, repeat-suc, take-append-drop, take_all, length-drop,
  if◌then◌else◌, ◌==◌,
}
use bear_tls.Hashcash.{
  Sha256, Run, hashed, store_be32, first_block, check_clock, chunk_loop, attempt, full_chunks,
}

regroup : (n t a m r : List ℕ) → (n ++ (t ++ a)) ++ (m ++ r) ≡ n ++ (t ++ ((a ++ m) ++ r))
regroup n t a m r = simp append_assoc

module _ (sha : Sha256) (ticks : ℕ → ℕ) where
  -- The hash of a message handed over at once.
  abbrev pub sha256 : List ℕ → List ℕ
  sha256 message = sha.out (sha.update sha.init message)

  chunk_loop_hash :
      (token : List ℕ) (start nonce left i : ℕ) (ctx : sha.Context) (run run' : Run)
      (digest : List ℕ)
      → chunk_loop sha ticks token start nonce left i ctx run ≡ hashed digest run'
      → digest ≡ sha.out (sha.update ctx (repeat (left * 256 + 254) token))
  unfolding chunk_loop
  chunk_loop_hash token start nonce zero i ctx run run' digest e = cc
  chunk_loop_hash token start nonce (suc left) i ctx run run' digest e =
      let checked : Run × Bool =
        if i % 32 == 31 then check_clock sha ticks start nonce i run else (run, false) in
      let rest = repeat (left * 256 + 254) token in
      let grows : repeat (suc left * 256 + 254) token ≡ repeat 256 token ++ rest =
        ap (λ n. repeat n token) (omega arith) ∙ repeat-add 256 (left * 256 + 254) token in
      rw (grows, ← sha.update-update ctx (repeat 256 token) rest)
        (ground (
          arith,
          chunk_loop_hash token start nonce left (i + 1) (sha.update ctx (repeat 256 token))
              checked.0 run' digest,
        ))

  split_token :
      (token : List ℕ) → length token ≡ 48 → take 12 token ++ take 36 (drop 12 token) ≡ token
  split_token token h =
      rw (take_all 36 (drop 12 token) (omega (arith, length-drop 12 token)))
        (take-append-drop 12 token)

  -- Unless the clock stops it, one attempt hashes the nonce, as four bytes, and then the 48-byte
  -- token 262144 times.
  pub attempt_hash :
      (token : List ℕ) (start nonce : ℕ) (run run' : Run) (digest : List ℕ)
      → length token ≡ 48
      → attempt sha ticks token start nonce run ≡ hashed digest run'
      → digest ≡ sha256 (store_be32 nonce ++ repeat 262144 token)
  unfolding attempt first_block
  attempt_hash token start nonce run run' digest h e =
      let rest = repeat (full_chunks * 256 + 254) token in
      let middle = take 36 (drop 12 token) in
      let whole : repeat 262144 token ≡ token ++ (token ++ rest) =
        repeat-suc 262143 token ∙ ap (λ t. token ++ t) (repeat-suc 262142 token) in
      let pieces : (store_be32 nonce ++ (token ++ take 12 token)) ++ (middle ++ rest)
          ≡ store_be32 nonce ++ repeat 262144 token =
        regroup (store_be32 nonce) token (take 12 token) middle rest
        ∙ rw (split_token token h, whole) refl in
      chunk_loop_hash token start nonce full_chunks 0 _ run run' digest e
      ∙ ap sha.out (
          sha.update-update _ middle rest
          ∙ sha.update-update sha.init _ (middle ++ rest)
          ∙ ap (sha.update sha.init) pieces)
