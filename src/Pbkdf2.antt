-- ===== src/Pbkdf2.antt =====
-- Key derivation of BearTLS/wm_https.c: `wm_pbkdf2_hmac_sha512_once` and
-- `wm_pbkdf2_sha512_b64salt`.
--
-- HMAC with SHA-512 of the TLS library is a parameter. The progress messages are collected as the
-- iterations that they name.
pub mod Iterations
pub mod Blocks
use bear_tls.Base.{
  ℕ, zero, suc, ◌+◌, ◌-◌, ◌*◌, ◌/◌, ◌%◌, ◌^◌, ◌==◌, ◌||◌, ◌&&◌, Bool, true, false, Option, none,
  some, List, [], ◌∷◌, ◌++◌, ltb, leb, if◌then◌else◌, length, bit_xor, take, memcpy, replicate,
}
use bear_tls.Base64.{b64_decode}

pub record HmacSha512 : Type 1 where
  pub Key : Type 0
  pub Context : Type 0
  pub key_init : List ℕ → Key
  pub init : Key → Context
  pub update : Context → List ℕ → Context
  pub out : Context → List ℕ

-- `t[j] ^= u[j]` for each `j`.
unfoldable pub xor_into : List ℕ → List ℕ → List ℕ
xor_into [] u = []
xor_into (x ∷ t) [] = x ∷ t
xor_into (x ∷ t) (y ∷ u) = bit_xor x y ∷ xor_into t u

-- The array `first_input` up to `salt_len + 4`.
unfoldable pub first_input : List ℕ → ℕ → List ℕ
first_input salt block_index =
    salt
    ++ ((block_index / 2 ^ 24 % 256)
        ∷ (block_index / 2 ^ 16 % 256)
        ∷ (block_index / 2 ^ 8 % 256)
        ∷ (block_index % 256)
        ∷ [])

-- The arrays `u` and `t` and the messages so far.
pub record Mix : Type 0 where
  pub u : List ℕ
  pub t : List ℕ
  pub messages : List ℕ

-- `refused` is the return of 0, `fault` a write out of the caller's array, and `out_of_rounds` the
-- end of the fuel.
pub data Outcome : Type 0 where
  refused fault out_of_rounds : Outcome
  derived : List ℕ → List ℕ → Outcome

module _ (hmac : HmacSha512) where
  -- `none` is the return of 0; the password and the data may be null.
  unfoldable pub hmac_once : Option (List ℕ) → Option (List ℕ) → Option (List ℕ)
  hmac_once none bytes = none
  hmac_once (some password) none = none
  hmac_once (some password) (some bytes) =
      some (hmac.out (hmac.update (hmac.init (hmac.key_init password)) bytes))

  -- The loop over `i`, with `left` rounds from round `i` on.
  unfoldable pub mix_loop : Option (List ℕ) → ℕ → ℕ → ℕ → Mix → Option Mix
  mix_loop password block_index zero i m = some m
  mix_loop password block_index (suc left) i m = elim (hmac_once password (some m.u)) [
    | none ↦ none
    | some u ↦ mix_loop password block_index left (i + 1) (record {
      u = u;
      t = xor_into m.t u;
      messages = if i % 10000 == 0 && block_index == 1 then m.messages ++ (i ∷ []) else m.messages;
    })
  ]

  -- One block: `none` is the return of 0.
  unfoldable pub derive_block : Option (List ℕ) → List ℕ → ℕ → ℕ → List ℕ → Option Mix
  derive_block password salt iterations block_index messages =
      if ltb 68 (length salt + 4)
      then none
      else elim (hmac_once password (some (first_input salt block_index))) [
        | none ↦ none
        | some u ↦
            mix_loop password block_index (iterations - 1) 1
              (record { u = u; t = u; messages = messages })
      ]

  -- The loop `while (produced < out_len)`, on the caller's array `out`.
  unfoldable pub block_loop :
      Option (List ℕ) → List ℕ → ℕ → ℕ → ℕ → ℕ → ℕ → List ℕ → List ℕ → Outcome
  block_loop password salt iterations out_len zero produced block_index out messages =
      if ltb produced out_len then out_of_rounds else derived out messages
  block_loop password salt iterations out_len (suc rounds) produced block_index out messages =
      elim (ltb produced out_len) [
        | false ↦ derived out messages
        | true ↦ elim (derive_block password salt iterations block_index messages) [
          | none ↦ refused
          | some m ↦
              let copy_len = if ltb 64 (out_len - produced) then 64 else out_len - produced in
              elim (memcpy out produced (take copy_len m.t)) [
                | none ↦ fault
                | some out' ↦
                    block_loop password salt iterations out_len rounds (produced + copy_len)
                      ((block_index + 1) % 2 ^ 32) out' m.messages
              ]
        ]
      ]

  -- `out` holds the caller's cells, and each round fills at least one: `out_len` rounds are enough.
  unfoldable pub pbkdf2 : Option (List ℕ) → Option (List ℕ) → ℕ → Option (List ℕ) → ℕ → Outcome
  pbkdf2 (some password) (some salt_b64) iterations (some out) out_len =
      if out_len == 0 || iterations == 0 then refused else elim (b64_decode (some salt_b64) 64) [
        | none ↦ refused
        | some salt ↦
            if length salt == 0
            then refused
            else block_loop (some password) salt iterations out_len out_len 0 1 out []
      ]
  pbkdf2 _ _ iterations _ out_len = refused
