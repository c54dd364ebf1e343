-- ===== src/Pbkdf2/Blocks.antt =====
-- The whole of `wm_pbkdf2_sha512_b64salt` (BearTLS/wm_https.c) against PBKDF2 of RFC 8018.
use bear_tls.Base.{ℕ, zero, suc, ◌+◌, ◌≤◌, ◌≡◌, List, [], ◌++◌, length, ltb, if◌then◌else◌}
use bear_tls.Pbkdf2.{HmacSha512, Outcome, derived}
use bear_tls.Pbkdf2.Iterations.{prf, f_block}

-- `n` blocks from T_i on, one after another.
module _ (hmac : HmacSha512) (password : List ℕ) where
  abbrev pub key_stream : List ℕ → ℕ → ℕ → ℕ → List ℕ
  key_stream salt iterations zero i = []
  key_stream salt iterations (suc n) i =
      f_block hmac password salt iterations i ++ key_stream salt iterations n (i + 1)

-- A call returned with these bytes in the caller's array.
abbrev pub Derives : List ℕ → Outcome → Type 0
Derives bytes r = (messages : List ℕ) × (r ≡ derived bytes messages)

module _ (hmac : HmacSha512) (password salt : List ℕ) (iterations : ℕ)
    (sized : (bytes : List ℕ) → length (prf hmac password bytes) ≡ 64)
    (short : length salt ≤ 64) where
  abbrev copied : ℕ → ℕ
  copied left = if ltb 64 left then 64 else left
