-- ===== src/Tests/Keys.antt =====
-- The session decryption, the hashcash solver and the key derivation of BearTLS/wm_https.c at
-- concrete inputs, with simple functions in place of the TLS library's.
use bear_tls.Base.{
  ℕ, zero, suc, ◌≡◌, ◌≤◌, ◌<◌, ◌⊎◌, refl, ap, ◌∙◌, true, List, [], ◌∷◌, ◌++◌, Option, some, arith,
  length, take, codes, replicate, append_assoc, repeat,
}
use bear_tls.Base64.{alphabet_at, group_chars, b64_encode_loop, b64_decode, b64_encode}
use bear_tls.Base64.RoundTrip.{b64_decode-b64_encode}
use bear_tls.Mega.{
  Mpi, KeyParts, PrivateKey, private_key, mpi_read, read_key, extract_sid, decrypt_session, Outcome,
  session, refused,
}
use bear_tls.Mega.Encoding.{mpi_text, read_key-blob}
use bear_tls.Mega.Session.{extract_sid-eq-padded}
use bear_tls.Mega.Blob.{key_blob, session_of, cipher_cells, decrypt_session-blob}
use bear_tls.Hashcash.{Sha256, Run, load_be32, store_be32, threshold, attempt, hashed, solve}
use bear_tls.Hashcash.Word.{threshold_mono}
use bear_tls.Hashcash.Stream.{sha256, attempt_hash}
use bear_tls.Hashcash.Search.{score}
use bear_tls.Hashcash.Solve.{attempt_hashed, solve_sound, solve_finds}
use bear_tls.Pbkdf2.{HmacSha512}

abbrev key : KeyParts
key = record { mp = 3 ∷ []; mq = 5 ∷ 6 ∷ []; md = 7 ∷ []; mu = 9 ∷ [] }

read_key-blob_example :
    read_key (
      mpi_text 2 (3 ∷ [])
      ++ (mpi_text 11 (5 ∷ 6 ∷ []) ++ (mpi_text 3 (7 ∷ []) ++ (mpi_text 4 (9 ∷ []) ++ (1 ∷ [])))))
    ≡ some key
read_key-blob_example =
    read_key-blob (3 ∷ []) (5 ∷ 6 ∷ []) (7 ∷ []) (9 ∷ []) (1 ∷ []) 2 11 3 4 (omega arith)
      (omega arith) (omega arith) (omega arith) refl refl refl refl (omega arith)

extract_sid-eq-padded_example :
    extract_sid 4 (0 ∷ 8 ∷ 9 ∷ 7 ∷ 0 ∷ []) 2 (1 ∷ 1 ∷ []) ≡ session (8 ∷ 9 ∷ [])
extract_sid-eq-padded_example =
    extract_sid-eq-padded 4 (0 ∷ 8 ∷ 9 ∷ 7 ∷ 0 ∷ []) 2 (1 ∷ 1 ∷ []) (omega arith) refl

-- The operation that leaves its input as it is.
abbrev no_rsa : PrivateKey → List ℕ → Option (List ℕ)
no_rsa sk x = some x

no_rsa-length : (sk : PrivateKey) (x x' : List ℕ) → no_rsa sk x ≡ some x' → length x' ≡ length x
no_rsa-length sk x x' e = cc

decrypt_session-blob_example :
    decrypt_session no_rsa
      (some (key_blob 2 11 3 4 key (1 ∷ [])))
      (some (mpi_text 9 (4 ∷ 2 ∷ []) ++ []))
      (some (1 ∷ []))
      1
    ≡ session_of 3 (cipher_cells 3 (4 ∷ 2 ∷ [])) 1
unfolding bear_tls.Mega.bad_lengths
decrypt_session-blob_example =
    decrypt_session-blob no_rsa no_rsa-length key 2 11 3 4 9 (4 ∷ 2 ∷ []) (1 ∷ []) [] (1 ∷ []) 1
      (omega arith) (omega arith) (omega arith) (omega arith) (omega arith) refl refl refl refl refl
      (omega arith) (omega arith) refl (omega arith) (omega arith) refl

threshold_mono_example : threshold 63 < threshold 64
threshold_mono_example = threshold_mono 63 64 (omega arith) (omega arith)

take-take : (n : ℕ) (xs ys : List ℕ) → take n (take n xs ++ ys) ≡ take n (xs ++ ys)
take-take zero xs ys = refl
take-take (suc n) [] ys = refl
take-take (suc n) (x ∷ xs) ys = ap (λ t. x ∷ t) (take-take n xs ys)

-- A hash that is the first four bytes of its message.
take-update : (c xs ys : List ℕ) → take 4 (take 4 (c ++ xs) ++ ys) ≡ take 4 (c ++ (xs ++ ys))
take-update c xs ys = take-take 4 (c ++ xs) ys ∙ ap (take 4) (append_assoc c xs ys)

abbrev prefix_hash : Sha256
prefix_hash = record {
  Context = List ℕ;
  init = [];
  update = λ c xs. take 4 (c ++ xs);
  out = λ c. c;
  update-update = take-update;
}

abbrev no_clock : ℕ → ℕ
no_clock n = 0

abbrev token : List ℕ
token = replicate 48 65

abbrev token_text : List ℕ
token_text = codes "QUFBQUFBQUFBQUFBQUFBQUFBQUFBQUFBQUFBQUFBQUFBQUFBQUFBQUFBQUFBQUFB"

encode-token : b64_encode token 65 ≡ some token_text
unfolding b64_encode b64_encode_loop group_chars alphabet_at
encode-token = refl

decode-token : b64_decode (some token_text) 48 ≡ some token
decode-token = b64_decode-b64_encode 65 48 token token_text (omega arith) encode-token (omega arith)

score_zero : score prefix_hash no_clock token 0 ≡ 0
unfolding store_be32 load_be32
score_zero = refl

abbrev fresh_run : Run
fresh_run = record { reads = 1; last_tick = 0; messages = [] }

attempt_in_time :
    (d : List ℕ) × (r : Run) × (attempt prefix_hash no_clock token 0 7 fresh_run ≡ hashed d r)
attempt_in_time = attempt_hashed prefix_hash no_clock (λ n. omega arith) token 7 fresh_run

attempt_hash_example :
    attempt_in_time.0 ≡ sha256 prefix_hash no_clock (store_be32 7 ++ repeat 262144 token)
attempt_hash_example =
    attempt_hash prefix_hash no_clock token 0 7 fresh_run attempt_in_time.1 attempt_in_time.0 refl
      attempt_in_time.2

solve_ran : (out : List ℕ) × (solve prefix_hash no_clock (some token_text) 9 true 7 ≡ some out)
solve_ran =
    solve_finds prefix_hash no_clock (λ n. omega arith) token_text token 9 7 0 decode-token refl
      (omega arith) (omega arith) (omega arith) (omega (arith, score_zero))

solve_finds_example :
    (out : List ℕ) × (solve prefix_hash no_clock (some token_text) 9 true 7 ≡ some out)
solve_finds_example =
    solve_finds prefix_hash no_clock (λ n. omega arith) token_text token 9 7 0 decode-token refl
      (omega arith) (omega arith) (omega arith) (omega (arith, score_zero))

solve_sound_example :
    (t : List ℕ) × (b64_decode (some token_text) 48 ≡ some t)
    × (length t ≡ 48)
    × (nonce : ℕ) × (nonce ≤ 0xffff_ffff)
    × (score prefix_hash no_clock t nonce ≤ threshold 9)
    × ((nonce ≤ 3) ⊎ (threshold 9 < score prefix_hash no_clock t 3))
    × (b64_decode (some solve_ran.0) 4 ≡ some (store_be32 nonce))
solve_sound_example = solve_sound prefix_hash no_clock token_text 9 7 true solve_ran.0 3 solve_ran.1

-- A keyed hash of 64 bytes.
abbrev flat_hmac : HmacSha512
flat_hmac = record {
  Key = List ℕ;
  Context = List ℕ;
  key_init = λ password. password;
  init = λ k. k;
  update = λ c xs. take 64 ((c ++ xs) ++ replicate 64 0);
  out = λ c. c;
}
