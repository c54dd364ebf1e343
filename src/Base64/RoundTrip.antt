-- ===== src/Base64/RoundTrip.antt =====
-- Decoding undoes encoding: the strict decoder on the text of `wm_hashcash_b64_encode`, and the
-- lenient one on the standard text of RFC 4648.
use bear_tls.Base.{
  ℕ, ◌+◌, ◌-◌, ◌*◌, ◌/◌, ◌%◌, ◌^◌, ◌≤◌, ◌<◌, ◌≡◌, refl, ap, ◌∙◌, true, false, none, some, List, [],
  ◌∷◌, ◌++◌, append_assoc, append-nil, arith, length, length-append, leb, ltb, if◌then◌else◌, All,
  bit_or, bit_or-shifted,
}
use bear_tls.Base64.{
  push_sextet, decoded, given_back, b64_decode_loop, run_b64_decode, b64_decode, alphabet_at,
  group_chars, b64_encode_loop, b64_encode,
}
use bear_tls.Base64.Sextets.{push_first, push_second, push_third, push_fourth, from64-alphabet_at}

-- One character of the alphabet, with no byte completed, and with one.
decode_hold :
    (size v : ℕ) (text : List ℕ) (bitbuf bitcount : ℕ) (out : List ℕ)
    → v < 64
    → leb 8 (bitcount + 6) ≡ false
    → b64_decode_loop size (alphabet_at v ∷ text) bitbuf bitcount out
      ≡ b64_decode_loop size text (push_sextet bitbuf v) (bitcount + 6) out
unfolding b64_decode_loop
decode_hold size v text bitbuf bitcount out h p =
    let (e, ne) = from64-alphabet_at v h in ground arith

decode_emit :
    (size v : ℕ) (text : List ℕ) (bitbuf bitcount : ℕ) (out : List ℕ)
    → v < 64
    → leb 8 (bitcount + 6) ≡ true
    → length out < size
    → b64_decode_loop size (alphabet_at v ∷ text) bitbuf bitcount out
      ≡ b64_decode_loop size text
          (push_sextet bitbuf v)
          (bitcount + 6 - 8)
          (out ++ ((push_sextet bitbuf v / 2 ^ (bitcount + 6 - 8) % 256) ∷ []))
unfolding b64_decode_loop
decode_emit size v text bitbuf bitcount out h p room =
    let (e, ne) = from64-alphabet_at v h in ground arith

-- The sextets of a 24-bit group.
abbrev sextet_at : ℕ → ℕ → ℕ
sextet_at value c = value / 2 ^ (18 - c * 6) % 64

value_of :
    (a b c : ℕ)
    → b < 256
    → c < 256
    → bit_or (bit_or (a * 2 ^ 16) (b * 2 ^ 8)) c ≡ a * 2 ^ 16 + b * 2 ^ 8 + c
value_of a b c hb hc =
    let e : a * 2 ^ 16 + b * 2 ^ 8 ≡ (a * 256 + b) * 2 ^ 8 = omega arith in
    rw (bit_or-shifted 16 a (b * 2 ^ 8) (omega arith), e, bit_or-shifted 8 (a * 256 + b) c hc)
      (omega arith)

-- Four characters give back the three bytes of their group.
module _ (size a b c : ℕ) (ha : a < 256) (hb : b < 256) (hc : c < 256) where
  abbrev quad : ℕ
  quad = a * 2 ^ 16 + b * 2 ^ 8 + c

  decode_quad :
      (rest : List ℕ) (bitbuf : ℕ) (out : List ℕ)
      → length out + 3 ≤ size
      → (w : ℕ) × (b64_decode_loop size (group_chars quad 4 ++ rest) bitbuf 0 out
          ≡ b64_decode_loop size rest w 0 (out ++ (a ∷ b ∷ c ∷ [])))
  unfolding group_chars
  decode_quad rest bitbuf out room =
      let v0 = sextet_at quad 0 in
      let v1 = sextet_at quad 1 in
      let v2 = sextet_at quad 2 in
      let v3 = sextet_at quad 3 in
      let b1 = push_sextet bitbuf v0 in
      let b2 = push_sextet b1 v1 in
      let b3 = push_sextet b2 v2 in
      let b4 = push_sextet b3 v3 in
      let first = push_first bitbuf v0 (omega arith) in
      let second = push_second b1 v0 v1 (omega arith) first in
      let third = push_third b2 (v1 % 16) v2 (omega arith) second.1 in
      let fourth = push_fourth b3 (v2 % 4) v3 (omega arith) third.1 in
      let ea : b2 / 2 ^ 4 % 256 ≡ a = omega (arith, second.0) in
      let eb : b3 / 2 ^ 2 % 256 ≡ b = omega (arith, third.0) in
      let ec : b4 / 2 ^ 0 % 256 ≡ c = omega (arith, fourth) in
      let out1 = out ++ ((b2 / 2 ^ 4 % 256) ∷ []) in
      let out2 = out1 ++ ((b3 / 2 ^ 2 % 256) ∷ []) in
      let l1 : length out1 ≡ length out + 1 = length-append out _ in
      let l2 : length out2 ≡ length out1 + 1 = length-append out1 _ in
      let joined : out2 ++ ((b4 / 2 ^ 0 % 256) ∷ []) ≡ out ++ (a ∷ b ∷ c ∷ []) =
        rw (ea, eb, ec) (simp append_assoc) in
      (
        b4,
        decode_hold size v0 _ bitbuf 0 out (omega arith) refl
            ∙ decode_emit size v1 _ b1 6 out (omega arith) refl (omega arith)
            ∙ decode_emit size v2 _ b2 4 out1 (omega arith) refl (omega arith)
            ∙ decode_emit size v3 _ b3 2 out2 (omega arith) refl (omega arith)
            ∙ ap (b64_decode_loop size rest b4 0) joined,
      )

decode_single :
    (size a bitbuf : ℕ) (out : List ℕ)
    → a < 256
    → length out + 1 ≤ size
    → b64_decode_loop size (group_chars (a * 2 ^ 16) 2) bitbuf 0 out ≡ decoded (out ++ (a ∷ []))
unfolding group_chars b64_decode_loop
decode_single size a bitbuf out ha room =
    let v0 = sextet_at (a * 2 ^ 16) 0 in
    let v1 = sextet_at (a * 2 ^ 16) 1 in
    let b1 = push_sextet bitbuf v0 in
    let b2 = push_sextet b1 v1 in
    let first = push_first bitbuf v0 (omega arith) in
    let second = push_second b1 v0 v1 (omega arith) first in
    let ea : b2 / 2 ^ 4 % 256 ≡ a = omega (arith, second.0) in
    decode_hold size v0 (alphabet_at v1 ∷ []) bitbuf 0 out (omega arith) refl
    ∙ decode_emit size v1 [] b1 6 out (omega arith) refl (omega arith)
    ∙ ap (λ x. decoded (out ++ (x ∷ []))) ea

decode_pair :
    (size a b bitbuf : ℕ) (out : List ℕ)
    → a < 256
    → b < 256
    → length out + 2 ≤ size
    → b64_decode_loop size (group_chars (a * 2 ^ 16 + b * 2 ^ 8) 3) bitbuf 0 out
      ≡ decoded (out ++ (a ∷ b ∷ []))
unfolding group_chars b64_decode_loop
decode_pair size a b bitbuf out ha hb room =
    let value = a * 2 ^ 16 + b * 2 ^ 8 in
    let v0 = sextet_at value 0 in
    let v1 = sextet_at value 1 in
    let v2 = sextet_at value 2 in
    let b1 = push_sextet bitbuf v0 in
    let b2 = push_sextet b1 v1 in
    let b3 = push_sextet b2 v2 in
    let first = push_first bitbuf v0 (omega arith) in
    let second = push_second b1 v0 v1 (omega arith) first in
    let third = push_third b2 (v1 % 16) v2 (omega arith) second.1 in
    let ea : b2 / 2 ^ 4 % 256 ≡ a = omega (arith, second.0) in
    let eb : b3 / 2 ^ 2 % 256 ≡ b = omega (arith, third.0) in
    let out1 = out ++ ((b2 / 2 ^ 4 % 256) ∷ []) in
    let l1 : length out1 ≡ length out + 1 = length-append out _ in
    let joined : out1 ++ ((b3 / 2 ^ 2 % 256) ∷ []) ≡ out ++ (a ∷ b ∷ []) =
      rw (ea, eb) (simp append_assoc) in
    decode_hold size v0 (alphabet_at v1 ∷ alphabet_at v2 ∷ []) bitbuf 0 out (omega arith) refl
    ∙ decode_emit size v1 (alphabet_at v2 ∷ []) b1 6 out (omega arith) refl (omega arith)
    ∙ decode_emit size v2 [] b2 4 out1 (omega arith) refl (omega arith)
    ∙ ap decoded joined

-- The text of some bytes, group by group.
unfoldable pub encoded : List ℕ → List ℕ
encoded [] = []
encoded (a ∷ []) = group_chars (a * 2 ^ 16) 2
encoded (a ∷ b ∷ []) = group_chars (a * 2 ^ 16 + b * 2 ^ 8) 3
encoded (a ∷ b ∷ c ∷ more) = group_chars (a * 2 ^ 16 + b * 2 ^ 8 + c) 4 ++ encoded more

decode-encoded :
    (size bitbuf : ℕ) (bytes out : List ℕ)
    → All (λ x. x < 256) bytes
    → length out + length bytes ≤ size
    → b64_decode_loop size (encoded bytes) bitbuf 0 out ≡ decoded (out ++ bytes)
unfolding encoded
decode-encoded size bitbuf [] out h room = unfold b64_decode_loop in rw (append-nil out)
decode-encoded size bitbuf (a ∷ []) out h room = decode_single size a bitbuf out h.0 (omega arith)
decode-encoded size bitbuf (a ∷ b ∷ []) out h room =
    decode_pair size a b bitbuf out h.0 h.1.0 (omega arith)
decode-encoded size bitbuf (a ∷ b ∷ c ∷ more) out h room =
    let (w, e) = decode_quad size a b c h.0 h.1.0 h.1.1.0 (encoded more) bitbuf out (omega arith) in
    e
    ∙ decode-encoded size w more (out ++ (a ∷ b ∷ c ∷ [])) h.1.1.1
        (omega (arith, length-append out (a ∷ b ∷ c ∷ [])))
    ∙ ap decoded (append_assoc out (a ∷ b ∷ c ∷ []) more)

length-group_chars :
    (v : ℕ)
    → (length (group_chars v 2) ≡ 2)
      × (length (group_chars v 3) ≡ 3)
      × (length (group_chars v 4) ≡ 4)
unfolding group_chars
length-group_chars v = (refl, refl, refl)

-- The encoder writes that text, and answers exactly when it fits with its NUL.
b64_encode_loop_lem :
    (size : ℕ) (bytes out : List ℕ)
    → All (λ x. x < 256) bytes
    → b64_encode_loop size bytes out ≡ (
        if ltb (length out + length (encoded bytes)) size
        then some (out ++ encoded bytes)
        else none)
unfolding b64_encode_loop encoded
b64_encode_loop_lem size [] out h = rw (append-nil out) (ground arith)
b64_encode_loop_lem size (a ∷ []) out h =
    ground (arith, length-append out (group_chars (a * 2 ^ 16) 2), length-group_chars (a * 2 ^ 16))
b64_encode_loop_lem size (a ∷ b ∷ []) out h =
    let value = a * 2 ^ 16 + b * 2 ^ 8 in
    rw (bit_or-shifted 16 a (b * 2 ^ 8) (omega (arith, h.1.0)))
      (ground (arith, length-append out (group_chars value 3), length-group_chars value))
b64_encode_loop_lem size (a ∷ b ∷ c ∷ more) out h =
    let value = a * 2 ^ 16 + b * 2 ^ 8 + c in
    rw
      (
        value_of a b c h.1.0 h.1.1.0,
        b64_encode_loop_lem size more (out ++ group_chars value 4) h.1.1.1,
        append_assoc out (group_chars value 4) (encoded more),
      )
      (ground (
        arith,
        length-append out (group_chars value 4),
        length-append (group_chars value 4) (encoded more),
        length-group_chars value,
      ))

-- Encoding bytes into an array of `size` characters answers exactly when the text of the bytes and
-- a NUL fit, and then with that text.
pub b64_encode-eq-encoded :
    (size : ℕ) (bytes : List ℕ)
    → All (λ x. x < 256) bytes
    → b64_encode bytes size
      ≡ (if ltb (length (encoded bytes)) size then some (encoded bytes) else none)
unfolding b64_encode
b64_encode-eq-encoded size bytes h =
    let e : 0 + length (encoded bytes) ≡ length (encoded bytes) = omega arith in
    b64_encode_loop_lem size bytes [] h ∙ rw e

-- Whatever bytes the encoder turns into a text, the strict decoder turns the text back into the
-- bytes, in any array that is large enough for them.
pub b64_decode-b64_encode :
    (size cap : ℕ) (bytes text : List ℕ)
    → All (λ x. x < 256) bytes
    → b64_encode bytes size ≡ some text
    → length bytes ≤ cap
    → b64_decode (some text) cap ≡ some bytes
unfolding b64_decode run_b64_decode
b64_decode-b64_encode size cap bytes text h e room =
    let same : encoded bytes ≡ text = ground (arith, b64_encode-eq-encoded size bytes h) in
    rw (← same) (ap given_back (decode-encoded cap 0 bytes [] h (omega arith)))
