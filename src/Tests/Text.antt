-- ===== src/Tests/Text.antt =====
-- The request builder and the base64 codes of BearTLS/wm_https.c and BearTLS/wm_cert_store.c at
-- concrete inputs.
use bear_tls.Base.{
  ℕ, ◌+◌, ◌≡◌, refl, List, ◌∷◌, ◌++◌, none, some, arith, length, take, codes, replicate, ◌≤◌,
}
use bear_tls.Request.{Parts, build_request}
use bear_tls.Request.Build.{request_text, build_request-eq-request_text}
use bear_tls.Base64.{
  push_sextet, alphabet_at, bad, bytes_written, run_b64_decode, b64_decode, b64_encode, decode_b64,
  group_chars, b64_decode_loop, b64_encode_loop, from64, b64_value,
}
use bear_tls.Base64.RoundTrip.{encoded, b64_encode-eq-encoded, b64_decode-b64_encode}
use bear_tls.Base64.Bounds.{run_b64_decode_bound}
use bear_tls.Base64.Lenient.{decode_b64-stripped, decode_b64-eq-b64_decode}

abbrev parts : Parts
parts = record {
  host = codes "a.org";
  port = 8443;
  method = some (codes "POST");
  path = some (codes "/x");
  extra_headers = none;
  body = some (codes "hi");
}

build_request-eq-request_text_example :
    (rest : List ℕ) × (build_request parts (replicate 64 1) 64
      ≡ some (take 63 (request_text parts) ++ (0 ∷ rest)))
    × (length (take 63 (request_text parts)) + 1 + length rest ≡ 64)
build_request-eq-request_text_example =
    build_request-eq-request_text parts (replicate 64 1) 64 (omega arith) refl

encoded_man : encoded (codes "Man") ≡ codes "TWFu"
unfolding encoded group_chars alphabet_at
encoded_man = refl

b64_encode_man : b64_encode (codes "Man") 5 ≡ some (codes "TWFu")
unfolding b64_encode b64_encode_loop group_chars alphabet_at
b64_encode_man = refl

b64_encode-eq-encoded_example : b64_encode (codes "Man") 4 ≡ none
unfolding encoded group_chars alphabet_at
b64_encode-eq-encoded_example = b64_encode-eq-encoded 4 (codes "Man") (omega arith)

b64_decode-b64_encode_example : b64_decode (some (codes "TWFu")) 3 ≡ some (codes "Man")
b64_decode-b64_encode_example =
    b64_decode-b64_encode 5 3 (codes "Man") (codes "TWFu") (omega arith) b64_encode_man
      (omega arith)

man_decoded : b64_decode (some (codes "TWFu")) 3 ≡ some (codes "Man")
unfolding b64_decode run_b64_decode b64_decode_loop from64 push_sextet
man_decoded = refl

-- An array that is too small: two bytes are written before the decoder gives up.
short_run : run_b64_decode (some (codes "TWFu")) 2 ≡ bad (codes "Ma")
unfolding run_b64_decode b64_decode_loop from64 push_sextet
short_run = refl

run_b64_decode_bound_example : length (bytes_written (run_b64_decode (some (codes "TWFu")) 2)) ≤ 2
run_b64_decode_bound_example = run_b64_decode_bound (some (codes "TWFu")) 2

decode_b64-stripped_example : decode_b64 (codes "TW\r\nFu==") 3 ≡ decode_b64 (codes "TWFu") 3
unfolding b64_value
decode_b64-stripped_example = decode_b64-stripped 3 (codes "TW\r\nFu==")

decode_b64-eq-b64_decode_example : decode_b64 (codes "TWFu") 3 ≡ codes "Man"
decode_b64-eq-b64_decode_example =
    decode_b64-eq-b64_decode 3 (codes "TWFu") (codes "Man") (omega arith) man_decoded
