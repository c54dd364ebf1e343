-- ===== src/Base64/Lenient.antt =====
-- The decoder of BearTLS/wm_cert_store.c, which skips what is not of its alphabet, against the
-- strict one.
use bear_tls.Base.{
  ℕ, ◌+◌, ◌-◌, ◌≡◌, refl, ◌==◌, Bool, true, false, none, some, List, [], ◌∷◌, arith, All, ◌≢◌,
  if◌then◌else◌,
}
use bear_tls.Base64.{
  from64, push_sextet, decoded, b64_decode_loop, run_b64_decode, b64_decode, b64_value,
  decode_b64_loop, decode_b64,
}
use bear_tls.Base64.Bounds.{sextet, emitted, given_back-decoded}

-- A character that the lenient decoder reads: of the alphabet, and no padding.
abbrev pub is_read : ℕ → Bool
is_read c = if c == b'=' then false else elim (b64_value c) [ none ↦ false | some v ↦ true ]

-- The text without the line ends, the padding and whatever else is skipped.
abbrev pub stripped : List ℕ → List ℕ
stripped [] = []
stripped (c ∷ text) = if is_read c then c ∷ stripped text else stripped text

decode_b64_loop-stripped :
    (cap : ℕ) (text : List ℕ) (acc bits : ℕ) (out : List ℕ)
    → decode_b64_loop cap text acc bits out ≡ decode_b64_loop cap (stripped text) acc bits out
unfolding decode_b64_loop
decode_b64_loop-stripped cap [] acc bits out = refl
decode_b64_loop-stripped cap (c ∷ text) acc bits out =
    let next = push_sextet acc (sextet (b64_value c)) in
    ground (
      arith,
      decode_b64_loop-stripped cap text acc bits out,
      decode_b64_loop-stripped cap text next (bits + 6 - 8) (emitted out next bits),
      decode_b64_loop-stripped cap text next (bits + 6) out,
    )

-- The two alphabets differ in `-` and `_` alone.
from64-eq-b64_value : (c : ℕ) → c ≢ b'-' → c ≢ b'_' → from64 c ≡ b64_value c
unfolding from64 b64_value
from64-eq-b64_value c h k = ground arith

decode_b64_loop-of_strict :
    (cap : ℕ) (text : List ℕ) (acc bits : ℕ) (out bytes : List ℕ)
    → All (λ c. (c ≢ b'-') × (c ≢ b'_') × (c ≢ b'=')) text
    → b64_decode_loop cap text acc bits out ≡ decoded bytes
    → decode_b64_loop cap text acc bits out ≡ bytes
unfolding decode_b64_loop b64_decode_loop
decode_b64_loop-of_strict cap [] acc bits out bytes h e = ground arith
decode_b64_loop-of_strict cap (c ∷ text) acc bits out bytes h e =
    let next = push_sextet acc (sextet (b64_value c)) in
    ground (
      arith,
      from64-eq-b64_value c h.0.0 h.0.1,
      decode_b64_loop-of_strict cap text next (bits + 6 - 8) (emitted out next bits) bytes h.1,
      decode_b64_loop-of_strict cap text next (bits + 6) out bytes h.1,
    )

-- The lenient decoder reads a text as if only the characters of its alphabet stood there.
pub decode_b64-stripped :
    (cap : ℕ) (text : List ℕ) → decode_b64 text cap ≡ decode_b64 (stripped text) cap
unfolding decode_b64
decode_b64-stripped cap text = decode_b64_loop-stripped cap text 0 0 []

-- Where a text has no `-`, `_` or `=` and the strict decoder accepts it, the lenient decoder gives
-- the same bytes.
pub decode_b64-eq-b64_decode :
    (cap : ℕ) (text bytes : List ℕ)
    → All (λ c. (c ≢ b'-') × (c ≢ b'_') × (c ≢ b'=')) text
    → b64_decode (some text) cap ≡ some bytes
    → decode_b64 text cap ≡ bytes
unfolding decode_b64 b64_decode run_b64_decode
decode_b64-eq-b64_decode cap text bytes h e =
    decode_b64_loop-of_strict cap text 0 0 [] bytes h (given_back-decoded _ bytes e)
