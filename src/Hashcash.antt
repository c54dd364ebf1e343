-- ===== src/Hashcash.antt =====
-- The hashcash solver of BearTLS/wm_https.c: `wm_hashcash_load_be32`, `wm_hashcash_store_be32`,
-- `wm_hashcash_threshold`, `wm_hashcash_progress` and `wm_hashcash_solve`.
--
-- SHA-256 of the TLS library and the tick counter of the system are parameters: the n-th call of
-- `GetTickCount` gives `ticks n`. The messages for the caller's progress function are collected in
-- order, by what they say. `unsigned long` and `DWORD` have 32 bits, and differences of ticks wrap.
pub mod Word
pub mod Stream
pub mod Search
pub mod Solve
use bear_tls.Base.{
  ℕ, zero, suc, ◌+◌, ◌-◌, ◌*◌, ◌/◌, ◌%◌, ◌^◌, ◌==◌, ◌||◌, ◌≡◌, Bool, true, false, not, Option, none,
  some, List, [], ◌∷◌, ◌++◌, ltb, leb, if◌then◌else◌, length, bit_or, get_or, take, drop, repeat,
}
use bear_tls.Base64.{b64_decode, b64_encode}

unfoldable pub load_be32 : List ℕ → ℕ
load_be32 p =
    bit_or (bit_or (bit_or (get_or p 0 0 * 2 ^ 24) (get_or p 1 0 * 2 ^ 16)) (get_or p 2 0 * 2 ^ 8))
      (get_or p 3 0)

unfoldable pub store_be32 : ℕ → List ℕ
store_be32 v = (v / 2 ^ 24 % 256) ∷ (v / 2 ^ 16 % 256) ∷ (v / 2 ^ 8 % 256) ∷ (v % 256) ∷ []

-- An `unsigned int` product.
unfoldable pub threshold : ℕ → ℕ
threshold e = (e % 64 * 2 + 1) * 2 ^ (e / 64 * 7 + 3) % 2 ^ 32

-- The streaming hash of the TLS library: data may be handed over in pieces.
pub record Sha256 : Type 1 where
  pub Context : Type 0
  pub init : Context
  pub update : Context → List ℕ → Context
  pub out : Context → List ℕ
  pub update-update : (c : Context) (xs ys : List ℕ) → update (update c xs) ys ≡ update c (xs ++ ys)

pub data Message : Type 0 where
  chunks_done : ℕ → ℕ → ℕ → Message
  nonces_tried : ℕ → ℕ → Message
  timed_out : Message

-- How often the clock was read, when progress was last told, and the messages so far.
pub record Run : Type 0 where
  pub reads : ℕ
  pub last_tick : ℕ
  pub messages : List Message

-- What one nonce comes to.
pub data Attempt : Type 0 where
  late : Run → Attempt
  hashed : List ℕ → Run → Attempt

-- How the search ends; `out_of_rounds` is the end of the fuel alone.
pub data Outcome : Type 0 where
  found : ℕ → Run → Outcome
  failed : Run → Outcome
  out_of_rounds : Outcome

abbrev pub token_bytes : ℕ
token_bytes = 48

abbrev pub chunk_repeats : ℕ
chunk_repeats = 256

abbrev pub full_chunks : ℕ
full_chunks = 1023

abbrev pub tail_repeats : ℕ
tail_repeats = 254

abbrev pub timeout_ms : ℕ
timeout_ms = 300000

-- `now - then`, for two `DWORD`s.
abbrev pub elapsed : ℕ → ℕ → ℕ
elapsed now since = (now + 2 ^ 32 - since) % 2 ^ 32

-- The array `first`: the nonce, the token, and the beginning of the next token.
unfoldable pub first_block : ℕ → List ℕ → List ℕ
first_block nonce token = store_be32 nonce ++ (token ++ take 12 token)

module _ (sha : Sha256) (ticks : ℕ → ℕ) where
  -- The clock test inside the chunk loop; `true` is the timeout.
  unfoldable pub check_clock : ℕ → ℕ → ℕ → Run → Run × Bool
  check_clock start nonce i run =
      let now = ticks run.reads in
      let told = not (ltb (elapsed now run.last_tick) 5000) in
      let run' : Run = record {
        reads = run.reads + 1;
        last_tick = if told then now else run.last_tick;
        messages =
            if told
            then run.messages ++ (chunks_done nonce (i + 1) (elapsed now start / 1000) ∷ [])
            else run.messages;
      } in
      if ltb (elapsed now start) timeout_ms
      then (run', false)
      else (record run' { messages = run'.messages ++ (timed_out ∷ []) }, true)

  -- The `WM_HASHCASH_FULL_CHUNKS` rounds, `left` of them from round `i` on; then the tail.
  unfoldable pub chunk_loop : List ℕ → ℕ → ℕ → ℕ → ℕ → sha.Context → Run → Attempt
  chunk_loop token start nonce zero i ctx run =
      hashed (sha.out (sha.update ctx (repeat tail_repeats token))) run
  chunk_loop token start nonce (suc left) i ctx run =
      let checked = if i % 32 == 31 then check_clock start nonce i run else (run, false) in
      elim checked.1 [
        | true ↦ late checked.0
        | false ↦
            chunk_loop token start nonce left (i + 1) (sha.update ctx (repeat chunk_repeats token))
              checked.0
      ]

  unfoldable pub attempt : List ℕ → ℕ → ℕ → Run → Attempt
  attempt token start nonce run =
      chunk_loop token start nonce full_chunks 0
        (sha.update (sha.update sha.init (first_block nonce token)) (take 36 (drop 12 token))) run

  -- Every eighth nonce that fails is told, at the time of one more reading of the clock.
  unfoldable pub tell_tried : ℕ → ℕ → Run → Run
  tell_tried start nonce run =
      if nonce % 8 == 7
      then record run {
        reads = run.reads + 1;
        messages =
            run.messages
            ++ (nonces_tried ((nonce + 1) % 2 ^ 32) (elapsed (ticks run.reads) start / 1000) ∷ []);
      }
      else run

  -- The loop over the nonces.
  unfoldable pub search_loop : List ℕ → ℕ → ℕ → ℕ → ℕ → Run → Outcome
  search_loop token start limit zero nonce run = out_of_rounds
  search_loop token start limit (suc rounds) nonce run = elim (attempt token start nonce run) [
    | late run' ↦ failed run'
    | hashed digest run' ↦ elim (leb (load_be32 digest) limit) [
      | true ↦ found nonce run'
      | false ↦ elim (nonce == 0xffff_ffff) [
        | true ↦ failed (tell_tried start nonce run')
        | false ↦ search_loop token start limit rounds (nonce + 1) (tell_tried start nonce run')
      ]
    ]
  ]

  -- `none` is the return of 0. The pointers may be null; the text that is returned is the content
  -- of `prefix_b64`, without its NUL.
  unfoldable pub finish : ℕ → Outcome → Option (List ℕ)
  finish prefix_b64_size (found nonce run) = b64_encode (store_be32 nonce) prefix_b64_size
  finish prefix_b64_size (failed run) = none
  finish prefix_b64_size out_of_rounds = none

  unfoldable pub solve_token : List ℕ → ℕ → ℕ → Option (List ℕ)
  solve_token token easiness prefix_b64_size = finish prefix_b64_size (
      search_loop token (ticks 0) (threshold easiness) (2 ^ 32) 0
        (record { reads = 1; last_tick = ticks 0; messages = [] }))

  unfoldable pub solve : Option (List ℕ) → ℕ → Bool → ℕ → Option (List ℕ)
  solve none easiness has_prefix prefix_b64_size = none
  solve (some text) easiness has_prefix prefix_b64_size =
      if not has_prefix || prefix_b64_size == 0 || ltb 255 easiness
      then none
      else elim (b64_decode (some text) token_bytes) [
        | none ↦ none
        | some token ↦
            if length token == token_bytes then solve_token token easiness prefix_b64_size else none
      ]
