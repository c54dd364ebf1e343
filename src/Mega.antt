-- ===== src/Mega.antt =====
-- The MEGA session decryption of BearTLS/wm_https.c: `wm_mega_mpi_read`, `wm_mega_actual_len` and
-- `wm_mega_rsa_decrypt_session`.
--
-- A pointer with a length is the list of the bytes; `unsigned int` sums wrap at 2 ^ 32. The RSA
-- private operation of the TLS library is an argument.
pub mod Encoding
pub mod Session
pub mod Blob
use bear_tls.Base.{
  ℕ, zero, suc, ◌+◌, ◌-◌, ◌*◌, ◌/◌, ◌%◌, ◌^◌, ◌==◌, ◌||◌, Bool, true, false, Option, none, some,
  List, [], ◌∷◌, ◌++◌, ltb, leb, if◌then◌else◌, ◌>>=◌, length, bit_or, get_or, get_elem?, take,
  drop, replicate, memcpy, store,
}

-- A number that was read, and the new position.
pub record Mpi : Type 0 where
  pub value : List ℕ
  pub pos : ℕ

abbrev pub mpi_bytes : ℕ → ℕ → ℕ
mpi_bytes hi lo = (bit_or (hi * 2 ^ 8) lo + 7) % 2 ^ 32 / 2 ^ 3

-- A multi-precision integer: its length in bits, two bytes, and its bytes. `bytes` holds the
-- `data_len` bytes of `data`; `none` is the return of 0.
unfoldable pub mpi_read : List ℕ → ℕ → Option Mpi
mpi_read bytes pos =
    if ltb (length bytes) ((pos + 2) % 2 ^ 32)
    then none
    else let n = mpi_bytes (get_or bytes pos 0) (get_or bytes (pos + 1) 0) in
      let pos' = (pos + 2) % 2 ^ 32 in
      if ltb (length bytes) ((pos' + n) % 2 ^ 32)
      then none
      else some (record { value = take n (drop pos' bytes); pos = (pos' + n) % 2 ^ 32 })

-- The loop drops leading zero bytes: the number that is left of the first `len` cells. `none` is a
-- read behind the last cell.
unfoldable pub actual_len : List ℕ → ℕ → Option ℕ
actual_len cells zero = some 0
actual_len [] (suc len) = none
actual_len (x ∷ cells) (suc len) = if x == 0 then actual_len cells len else some (suc len)

-- The fields of `br_rsa_private_key` that the code sets.
pub record PrivateKey : Type 0 where
  pub n_bitlen : ℕ
  pub p : List ℕ
  pub q : List ℕ
  pub dp : List ℕ
  pub dq : List ℕ
  pub iq : List ℕ

abbrev pub max_component : ℕ
max_component = 512

abbrev pub max_modulus : ℕ
max_modulus = 1024

-- The four parts of a MEGA private key, in the order of the blob.
pub record KeyParts : Type 0 where
  pub mp : List ℕ
  pub mq : List ℕ
  pub md : List ℕ
  pub mu : List ℕ

unfoldable pub read_key : List ℕ → Option KeyParts
read_key mega_privk = mpi_read mega_privk 0 >>= λ p. mpi_read mega_privk p.pos >>= λ q.
    mpi_read mega_privk q.pos >>= λ d. mpi_read mega_privk d.pos >>= λ u.
    some (record { mp = p.value; mq = q.value; md = d.value; mu = u.value })

-- The two tests on the lengths; `true` is a refusal.
unfoldable pub bad_lengths : KeyParts → Bool
bad_lengths k =
    (length k.mp == 0 || length k.mq == 0 || length k.md == 0 || length k.mu == 0)
    || (ltb max_component (length k.mp)
        || ltb max_component (length k.mq)
        || ltb max_modulus (length k.md)
        || ltb max_component (length k.mu))

-- `sk`: the primes trade places, and the full exponent stands for both reduced ones.
abbrev pub private_key : KeyParts → PrivateKey
private_key k = record {
  n_bitlen = (length k.mp + length k.mq) * 8;
  p = k.mq;
  q = k.mp;
  dp = k.md;
  dq = k.md;
  iq = k.mu;
}

-- `x` before the private operation: zeros, and the ciphertext at the end of its first `xlen` cells.
unfoldable pub load_cipher : ℕ → List ℕ → Option (List ℕ)
load_cipher xlen cipher = memcpy (replicate max_modulus 0) (xlen - length cipher) cipher

-- `memmove(x + to, x + from, len)`; `none` for a read or a write out of `x`.
unfoldable pub memmove : List ℕ → ℕ → ℕ → ℕ → Option (List ℕ)
memmove x to from len =
    if ltb (length x) (from + len) then none else memcpy x to (take len (drop from x))

-- The call that moves the number without its leading zeros to the front.
unfoldable pub move_down : ℕ → ℕ → List ℕ → Option (List ℕ)
move_down xlen actual x = memmove x 0 (xlen - actual) actual

-- `sid[i - 1]`, from the byte that stands `base + (sid_len - i)` places from the end of `x`; `none`
-- for a read out of `x`.
abbrev pub sid_byte : List ℕ → ℕ → ℕ → Option ℕ
sid_byte x actual byte_index =
    if leb actual byte_index then some 0 else get_elem? x (actual - 1 - byte_index)

-- The loop `for (i = sid_len; i > 0; --i)` with `i` rounds left, on the array `sid`.
unfoldable pub sid_loop : List ℕ → ℕ → ℕ → ℕ → ℕ → List ℕ → Option (List ℕ)
sid_loop x actual base sid_len zero sid = some sid
sid_loop x actual base sid_len (suc i) sid = sid_byte x actual (base + (sid_len - suc i)) >>= λ b.
    store sid i b >>= sid_loop x actual base sid_len i

-- `refused` is the return of 0, and `fault` an access out of an array.
pub data Outcome : Type 0 where
  refused fault : Outcome
  session : List ℕ → Outcome

abbrev pub or_fault : Option (List ℕ) → Outcome
or_fault none = fault
or_fault (some sid) = session sid

-- From the moved number on.
unfoldable pub write_sid : ℕ → ℕ → List ℕ → ℕ → List ℕ → Outcome
write_sid xlen actual x sid_len sid =
    let base = if ltb (xlen - 2) actual then actual else xlen - 2 in
    if ltb base sid_len
    then refused
    else or_fault (sid_loop x actual (base - sid_len) sid_len sid_len sid)

-- From the plaintext on: `x` is the array that the private operation left.
unfoldable pub extract_sid : ℕ → List ℕ → ℕ → List ℕ → Outcome
extract_sid xlen x sid_len sid = elim (actual_len x xlen) [
  | none ↦ fault
  | some actual ↦ elim (if ltb actual xlen then move_down xlen actual x else some x) [
    | none ↦ fault
    | some x' ↦ write_sid xlen actual x' sid_len sid
  ]
]

module _ (rsa_private : PrivateKey → List ℕ → Option (List ℕ)) where
  unfoldable pub run_private : KeyParts → List ℕ → ℕ → List ℕ → Outcome
  run_private k x sid_len sid = elim (rsa_private (private_key k) x) [
    | none ↦ refused
    | some x' ↦ extract_sid (length k.mp + length k.mq) x' sid_len sid
  ]

  unfoldable pub decrypt_with : KeyParts → List ℕ → ℕ → List ℕ → Outcome
  decrypt_with k cipher sid_len sid =
      let xlen = length k.mp + length k.mq in
      if bad_lengths k
      then refused
      else if xlen == 0 || ltb max_modulus xlen || ltb xlen (length cipher)
      then refused
      else elim (load_cipher xlen cipher) [ none ↦ fault | some x ↦ run_private k x sid_len sid ]

  -- The pointers may be null; `sid` holds the cells of the caller's array.
  unfoldable pub decrypt_session : Option (List ℕ) → Option (List ℕ) → Option (List ℕ) → ℕ → Outcome
  decrypt_session (some mega_privk) (some mega_csid) (some sid) sid_len =
      if sid_len == 0 then refused else elim (read_key mega_privk) [
        | none ↦ refused
        | some k ↦ elim (mpi_read mega_csid 0) [
          | none ↦ refused
          | some cipher ↦ decrypt_with k cipher.value sid_len sid
        ]
      ]
  decrypt_session _ _ _ sid_len = refused
