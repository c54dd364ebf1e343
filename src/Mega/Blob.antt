-- ===== src/Mega/Blob.antt =====
-- `wm_mega_rsa_decrypt_session` (BearTLS/wm_https.c) from the encoded key and ciphertext to the
-- session bytes.
use bear_tls.Base.{
  ℕ, zero, suc, ◌+◌, ◌-◌, ◌*◌, ◌/◌, ◌^◌, ◌≤◌, ◌<◌, ◌≡◌, refl, ap, ◌∙◌, false, Option, none, some,
  List, [], ◌∷◌, ◌++◌, arith, length, length-append, ltb, take, drop, replicate, length-replicate,
  memcpy, memcpy_total, if◌then◌else◌, Option-cases, inl, inr, ◌==◌, max, ◌||◌,
}
use bear_tls.Mega.{
  Outcome, refused, session, KeyParts, PrivateKey, private_key, bad_lengths, max_modulus,
  load_cipher, run_private, decrypt_with, decrypt_session,
}
use bear_tls.Mega.Encoding.{mpi_text, read_key-blob, mpi_read_at}
use bear_tls.Mega.Session.{significant, extract_sid-eq-padded}

-- The outcome for a plaintext in the first `xlen` cells of `x`.
abbrev pub session_of : ℕ → List ℕ → ℕ → Outcome
session_of xlen x sid_len =
    let plain = significant (take xlen x) in
    let width = max (xlen - 2) (length plain) in
    if ltb width sid_len
    then refused
    else session (take sid_len (replicate (width - length plain) 0 ++ plain))

-- The key for the private operation on a MEGA key: MEGA's second prime comes first, since its last
-- part is the inverse of the first prime modulo the second; each reduced exponent is the whole
-- exponent; and the modulus counts with eight bits for each byte of the two primes.
abbrev pub rsa_key : KeyParts → PrivateKey
rsa_key k = record {
  n_bitlen = (length k.mp + length k.mq) * 8;
  p = k.mq;
  q = k.mp;
  dp = k.md;
  dq = k.md;
  iq = k.mu;
}

-- The ciphertext as a number of `xlen` bytes, in an array of 1024 cells.
abbrev pub cipher_cells : ℕ → List ℕ → List ℕ
cipher_cells xlen cipher =
    replicate (xlen - length cipher) 0 ++ (cipher ++ replicate (max_modulus - xlen) 0)

abbrev pub key_blob : ℕ → ℕ → ℕ → ℕ → KeyParts → List ℕ → List ℕ
key_blob bp bq bd bu k rest =
    mpi_text bp k.mp ++ (mpi_text bq k.mq ++ (mpi_text bd k.md ++ (mpi_text bu k.mu ++ rest)))

take-replicate : (n m v : ℕ) → n ≤ m → take n (replicate m v) ≡ replicate n v
take-replicate zero m v h = refl
take-replicate (suc n) zero v h = absurd (omega arith)
take-replicate (suc n) (suc m) v h = ap (λ t. v ∷ t) (take-replicate n m v (omega arith))

drop-replicate : (n m v : ℕ) → drop n (replicate m v) ≡ replicate (m - n) v
drop-replicate zero m v = let e : m - 0 ≡ m = omega arith in rw e
drop-replicate (suc n) zero v = let e : 0 - suc n ≡ 0 = omega arith in rw e
drop-replicate (suc n) (suc m) v =
    let e : suc m - suc n ≡ m - n = omega arith in rw e (drop-replicate n m v)

load_zeros :
    (size xlen : ℕ) (cipher : List ℕ)
    → length cipher ≤ xlen
    → xlen ≤ size
    → memcpy (replicate size 0) (xlen - length cipher) cipher
      ≡ some (replicate (xlen - length cipher) 0 ++ (cipher ++ replicate (size - xlen) 0))
load_zeros size xlen cipher h fits =
    let e : xlen - length cipher + length cipher ≡ xlen = omega arith in
    memcpy_total (replicate size 0) (xlen - length cipher) cipher
      (omega (arith, length-replicate {A = ℕ} size 0))
    ∙ rw (e, take-replicate (xlen - length cipher) size 0 (omega arith), drop-replicate xlen size 0)
        refl

load_cipher_lem :
    (xlen : ℕ) (cipher : List ℕ)
    → length cipher ≤ xlen
    → xlen ≤ max_modulus
    → load_cipher xlen cipher ≡ some (cipher_cells xlen cipher)
unfolding load_cipher
load_cipher_lem xlen cipher h fits = load_zeros max_modulus xlen cipher h fits

length-cipher_cells :
    (xlen : ℕ) (cipher : List ℕ) → length cipher ≤ xlen → xlen ≤ length (cipher_cells xlen cipher)
length-cipher_cells xlen cipher h = omega (
  arith,
  length-append (replicate (xlen - length cipher) 0) (cipher ++ replicate (max_modulus - xlen) 0),
  length-append cipher (replicate (max_modulus - xlen) 0),
  length-replicate {A = ℕ} (xlen - length cipher) 0,
)

-- The tests on the lengths, as orders.
lengths_ok :
    (k : KeyParts)
    → bad_lengths k ≡ false
    → (0 < length k.mp) × (0 < length k.mq) × (length k.mp + length k.mq ≤ max_modulus)
unfolding bad_lengths
lengths_ok k h = ground arith

module _ (rsa_private : PrivateKey → List ℕ → Option (List ℕ))
    (in_place : (sk : PrivateKey) (x x' : List ℕ)
      → rsa_private sk x ≡ some x'
      → length x' ≡ length x) where
  run_private_lem :
      (k : KeyParts) (x : List ℕ) (sid_len : ℕ) (sid : List ℕ)
      → length k.mp + length k.mq ≤ length x
      → length sid ≡ sid_len
      → run_private rsa_private k x sid_len sid ≡ elim (rsa_private (private_key k) x) [
        | none ↦ refused
        | some x' ↦ session_of (length k.mp + length k.mq) x' sid_len
      ]
  unfolding run_private
  run_private_lem k x sid_len sid fits l = elim (Option-cases (rsa_private (private_key k) x)) [
    | inl e ↦ rw (e, run_private)
    | inr (x', e) ↦
        rw (e, run_private)
          (extract_sid-eq-padded (length k.mp + length k.mq) x' sid_len sid
            (omega (arith, in_place (private_key k) x x' e)) l)
  ]

  decrypt_with_lem :
      (k : KeyParts) (cipher : List ℕ) (sid_len : ℕ) (sid : List ℕ)
      → bad_lengths k ≡ false
      → length cipher ≤ length k.mp + length k.mq
      → length sid ≡ sid_len
      → decrypt_with rsa_private k cipher sid_len sid
        ≡ elim (rsa_private (private_key k) (cipher_cells (length k.mp + length k.mq) cipher)) [
          | none ↦ refused
          | some x' ↦ session_of (length k.mp + length k.mq) x' sid_len
        ]
  unfolding decrypt_with
  decrypt_with_lem k cipher sid_len sid good h l =
      let xlen = length k.mp + length k.mq in
      let ok = lengths_ok k good in
      let in_range : (xlen == 0 || ltb max_modulus xlen || ltb xlen (length cipher)) ≡ false =
        ground arith in
      rw (good, in_range, load_cipher_lem xlen cipher h ok.2)
        (run_private_lem k (cipher_cells xlen cipher) sid_len sid
          (length-cipher_cells xlen cipher h) l)

  -- For a key blob and a ciphertext blob as the format writes them, with lengths that the code
  -- accepts, a ciphertext no longer than the modulus and an array of `sid_len` > 0 cells: the
  -- private operation is run on the zero-padded ciphertext, with the second prime of the blob as p,
  -- the first as q, the exponent for both reduced ones and the last part as the inverse; if it
  -- fails the call is refused, and otherwise the outcome is that of its plaintext, without a fault.
  pub decrypt_session-blob :
      (k : KeyParts) (bp bq bd bu bc : ℕ) (cipher rest rest' sid : List ℕ) (sid_len : ℕ)
      → bp < 65536
      → bq < 65536
      → bd < 65536
      → bu < 65536
      → bc < 65536
      → length k.mp ≡ (bp + 7) / 8
      → length k.mq ≡ (bq + 7) / 8
      → length k.md ≡ (bd + 7) / 8
      → length k.mu ≡ (bu + 7) / 8
      → length cipher ≡ (bc + 7) / 8
      → length rest < 2 ^ 31
      → length rest' < 2 ^ 31
      → bad_lengths k ≡ false
      → length cipher ≤ length k.mp + length k.mq
      → 0 < sid_len
      → length sid ≡ sid_len
      → decrypt_session rsa_private
          (some (key_blob bp bq bd bu k rest))
          (some (mpi_text bc cipher ++ rest'))
          (some sid)
          sid_len
        ≡ elim (rsa_private (rsa_key k) (cipher_cells (length k.mp + length k.mq) cipher)) [
          | none ↦ refused
          | some x' ↦ session_of (length k.mp + length k.mq) x' sid_len
        ]
  unfolding decrypt_session
  decrypt_session-blob k bp bq bd bu bc cipher rest rest' sid sid_len hp hq hd hu hc lp lq ld lu lc
        lr lr' good h pos l =
      let some_len : (sid_len == 0) ≡ false = ground arith in
      rw
        (
          some_len,
          read_key-blob k.mp k.mq k.md k.mu rest bp bq bd bu hp hq hd hu lp lq ld lu lr,
          mpi_read_at (mpi_text bc cipher ++ rest') [] cipher rest' bc 0 refl refl hc lc
              (omega arith),
        )
        (decrypt_with_lem k cipher sid_len sid good h l)
