-- ===== src/Pbkdf2/Iterations.antt =====
-- One block of BearTLS/wm_https.c's key derivation against the function F of RFC 8018, section 5.2.
use bear_tls.Base.{ℕ, zero, suc, ◌-◌, ◌≡◌, refl, ap, ◌∙◌, List, [], ◌∷◌, length}
use bear_tls.Pbkdf2.{HmacSha512, xor_into, first_input}

pub length-xor_into : (t u : List ℕ) → length (xor_into t u) ≡ length t
unfolding xor_into
length-xor_into [] u = refl
length-xor_into (x ∷ t) [] = refl
length-xor_into (x ∷ t) (y ∷ u) = ap suc (length-xor_into t u)

module _ (hmac : HmacSha512) (password : List ℕ) where
  -- The pseudorandom function, keyed by the password.
  abbrev pub prf : List ℕ → List ℕ
  prf bytes = hmac.out (hmac.update (hmac.init (hmac.key_init password)) bytes)

  -- U_(n + 1), from U_1.
  abbrev pub iterate_prf : ℕ → List ℕ → List ℕ
  iterate_prf zero u = u
  iterate_prf (suc n) u = prf (iterate_prf n u)

  -- U_1 xor U_2 xor … xor U_(n + 1).
  abbrev pub xor_sum : ℕ → List ℕ → List ℕ
  xor_sum zero u = u
  xor_sum (suc n) u = xor_into (xor_sum n u) (iterate_prf (suc n) u)

  -- The block T_i, for a salt and a count of iterations above 0.
  abbrev pub f_block : List ℕ → ℕ → ℕ → List ℕ
  f_block salt iterations i = xor_sum (iterations - 1) (prf (first_input salt i))

  pub length-f_block :
      (salt : List ℕ) (iterations i : ℕ)
      → ((bytes : List ℕ) → length (prf bytes) ≡ 64)
      → length (f_block salt iterations i) ≡ 64
  length-f_block salt iterations i sized = go (iterations - 1)
    where
      go : (n : ℕ) → length (xor_sum n (prf (first_input salt i))) ≡ 64
      go zero = sized _
      go (suc n) = length-xor_into (xor_sum n (prf (first_input salt i))) _ ∙ go n
