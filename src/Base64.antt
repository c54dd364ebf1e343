-- ===== src/Base64.antt =====
-- The base64 code of the library: `wm_hashcash_from64`, `wm_hashcash_b64_decode` and
-- `wm_hashcash_b64_encode` of BearTLS/wm_https.c (the URL-safe alphabet, strict), and
-- `wm_cert_store_b64_value` and `wm_cert_store_decode_b64` of BearTLS/wm_cert_store.c (the standard
-- alphabet, which skips what is not of it).
--
-- An output array with its counter is the list of the bytes written so far; each write stands
-- behind the source's test of the counter against the size of the array. The strict decoder gives
-- the bytes that it wrote on a failure too.
pub mod Sextets
pub mod RoundTrip
pub mod Bounds
pub mod Lenient
use bear_tls.Base.{
  ℕ, ◌+◌, ◌-◌, ◌*◌, ◌/◌, ◌%◌, ◌^◌, ◌==◌, ◌||◌, ◌&&◌, Bool, true, false, Option, none, some, List,
  [], ◌∷◌, ◌++◌, ltb, leb, if◌then◌else◌, length, bit_or, codes, get_or, take, map,
}

abbrev pub in_range : ℕ → ℕ → ℕ → Bool
in_range lo hi c = leb lo c && leb c hi

-- `none` is the -1 of the source.
unfoldable pub from64 : ℕ → Option ℕ
from64 ch =
    if in_range b'A' b'Z' ch
    then some (ch - b'A')
    else if in_range b'a' b'z' ch
    then some (ch - b'a' + 26)
    else if in_range b'0' b'9' ch
    then some (ch - b'0' + 52)
    else if ch == b'-' || ch == b'+'
    then some 62
    else if ch == b'_' || ch == b'/'
    then some 63
    else none

-- `(bitbuf << 6) | v` in an `unsigned int`.
unfoldable pub push_sextet : ℕ → ℕ → ℕ
push_sextet bitbuf v = bit_or (bitbuf * 2 ^ 6 % 2 ^ 32) v

-- The end of a decoding, with the bytes that were written: `bad` is the return of -1.
pub data Decoding : Type 0 where
  bad decoded : List ℕ → Decoding

abbrev pub bytes_written : Decoding → List ℕ
bytes_written (bad out) = out
bytes_written (decoded out) = out

-- What the caller takes out of its array, `none` for -1.
abbrev pub given_back : Decoding → Option (List ℕ)
given_back (bad out) = none
given_back (decoded out) = some out

-- The loop at the text that is left.
unfoldable pub b64_decode_loop : ℕ → List ℕ → ℕ → ℕ → List ℕ → Decoding
b64_decode_loop out_size [] bitbuf bitcount out = decoded out
b64_decode_loop out_size (ch ∷ text) bitbuf bitcount out = elim (ch == b'=') [
  | true ↦ decoded out
  | false ↦ elim (from64 ch) [
    | none ↦ bad out
    | some v ↦ elim (leb 8 (bitcount + 6)) [
      | true ↦ elim (leb out_size (length out)) [
        | true ↦ bad out
        | false ↦
            b64_decode_loop out_size text (push_sextet bitbuf v) (bitcount + 6 - 8)
              (out ++ ((push_sextet bitbuf v / 2 ^ (bitcount + 6 - 8) % 256) ∷ []))
      ]
      | false ↦ b64_decode_loop out_size text (push_sextet bitbuf v) (bitcount + 6) out
    ]
  ]
]

-- `text` may be null.
unfoldable pub run_b64_decode : Option (List ℕ) → ℕ → Decoding
run_b64_decode none out_size = decoded []
run_b64_decode (some text) out_size = b64_decode_loop out_size text 0 0 []

unfoldable pub b64_decode : Option (List ℕ) → ℕ → Option (List ℕ)
unfolding run_b64_decode
b64_decode text out_size = given_back (run_b64_decode text out_size)

abbrev pub alphabet : List ℕ
alphabet = codes "ABCDEFGHIJKLMNOPQRSTUVWXYZabcdefghijklmnopqrstuvwxyz0123456789-_"

unfoldable pub alphabet_at : ℕ → ℕ
alphabet_at k = get_or alphabet k 0

-- `alphabet[(value >> (18 - c * 6)) & 0x3f]` for `c` from 0 to `chars - 1`.
unfoldable pub group_chars : ℕ → ℕ → List ℕ
group_chars value chars =
    take chars (map (λ c. alphabet_at (value / 2 ^ (18 - c * 6) % 64)) (0 ∷ 1 ∷ 2 ∷ 3 ∷ []))

-- The loop at the data that is left; a group is 3 bytes, or what remains. `none` is the return of
-- 0; a text that is returned is followed by the NUL that fits.
unfoldable pub b64_encode_loop : ℕ → List ℕ → List ℕ → Option (List ℕ)
b64_encode_loop out_size [] out = if leb out_size (length out) then none else some out
b64_encode_loop out_size (a ∷ []) out =
    let rest = b64_encode_loop out_size [] (out ++ group_chars (a * 2 ^ 16) 2) in
    if leb out_size (length out + 2) then none else rest
b64_encode_loop out_size (a ∷ b ∷ []) out =
    let rest =
      b64_encode_loop out_size [] (out ++ group_chars (bit_or (a * 2 ^ 16) (b * 2 ^ 8)) 3) in
    if leb out_size (length out + 3) then none else rest
b64_encode_loop out_size (a ∷ b ∷ c ∷ more) out =
    let value = bit_or (bit_or (a * 2 ^ 16) (b * 2 ^ 8)) c in
    let rest = b64_encode_loop out_size more (out ++ group_chars value 4) in
    if leb out_size (length out + 4) then none else rest

unfoldable pub b64_encode : List ℕ → ℕ → Option (List ℕ)
b64_encode bytes out_size = b64_encode_loop out_size bytes []

-- `none` is the -1 of the source.
unfoldable pub b64_value : ℕ → Option ℕ
b64_value c =
    if in_range b'A' b'Z' c
    then some (c - b'A')
    else if in_range b'a' b'z' c
    then some (c - b'a' + 26)
    else if in_range b'0' b'9' c
    then some (c - b'0' + 52)
    else if c == b'+'
    then some 62
    else if c == b'/'
    then some 63
    else none

-- The loop over `begin .. end`; the result is the bytes in `out`, of which the 0 of the source, for
-- an overflow, is the empty list.
unfoldable pub decode_b64_loop : ℕ → List ℕ → ℕ → ℕ → List ℕ → List ℕ
decode_b64_loop out_cap [] acc bits out = out
decode_b64_loop out_cap (c ∷ text) acc bits out = elim (c == b'=') [
  | true ↦ decode_b64_loop out_cap text acc bits out
  | false ↦ elim (b64_value c) [
    | none ↦ decode_b64_loop out_cap text acc bits out
    | some v ↦ elim (leb 8 (bits + 6)) [
      | true ↦ elim (leb out_cap (length out)) [
        | true ↦ []
        | false ↦
            decode_b64_loop out_cap text (push_sextet acc v) (bits + 6 - 8)
              (out ++ ((push_sextet acc v / 2 ^ (bits + 6 - 8) % 256) ∷ []))
      ]
      | false ↦ decode_b64_loop out_cap text (push_sextet acc v) (bits + 6) out
    ]
  ]
]

unfoldable pub decode_b64 : List ℕ → ℕ → List ℕ
decode_b64 text out_cap = decode_b64_loop out_cap text 0 0 []
