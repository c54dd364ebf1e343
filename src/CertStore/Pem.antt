-- ===== src/CertStore/Pem.antt =====
-- The text of a PEM file: `wm_cert_store_find_text` and `wm_cert_store_count_pem_certs` of
-- BearTLS/wm_cert_store.c.
use bear_tls.Base.{
  ℕ, zero, suc, ◌+◌, ◌==◌, ◌&&◌, Bool, true, false, Option, none, some, List, [], ◌∷◌, leb, length,
  drop, codes,
}

abbrev pub max_external_root_count : ℕ
max_external_root_count = 256

abbrev pub begin_marker : List ℕ
begin_marker = codes "-----BEGIN CERTIFICATE-----"

abbrev pub end_marker : List ℕ
end_marker = codes "-----END CERTIFICATE-----"

-- `memcmp(p, needle, needle_len) == 0`, for the text at `p`.
unfoldable pub starts_with : List ℕ → List ℕ → Bool
starts_with [] text = true
starts_with (n ∷ ns) [] = false
starts_with (n ∷ ns) (c ∷ cs) = (n == c) && starts_with ns cs

abbrev pub next_offset : Option ℕ → Option ℕ
next_offset none = none
next_offset (some i) = some (suc i)

-- The loop of `find_text` from `p` on; the result counts from `p`.
unfoldable pub find_text_loop : List ℕ → List ℕ → Option ℕ
find_text_loop needle [] = none
find_text_loop needle (c ∷ cs) = elim (leb (length needle) (length (c ∷ cs))) [
  | false ↦ none
  | true ↦ elim (starts_with needle (c ∷ cs)) [
    | true ↦ some 0
    | false ↦ next_offset (find_text_loop needle cs)
  ]
]

-- A pointer to the place is its offset from `text`, and `end` is the end of the list.
unfoldable pub find_text : List ℕ → List ℕ → Option ℕ
find_text text [] = some 0
find_text text (n ∷ ns) = find_text_loop (n ∷ ns) text

-- The loop that counts, from `p` on.
unfoldable pub count_loop : ℕ → List ℕ → ℕ → ℕ
count_loop zero text count = count
count_loop (suc fuel) text count = elim (find_text text begin_marker) [
  | none ↦ count
  | some i ↦ elim (leb max_external_root_count (count + 1)) [
    | true ↦ count + 1
    | false ↦ count_loop fuel (drop (i + length begin_marker) text) (count + 1)
  ]
]

-- The loop ends at the 256th certificate at the latest.
unfoldable pub count_pem_certs : List ℕ → ℕ
count_pem_certs text = count_loop max_external_root_count text 0
