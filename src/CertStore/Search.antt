-- ===== src/CertStore/Search.antt =====
-- `wm_cert_store_find_text` and `wm_cert_store_count_pem_certs` (BearTLS/wm_cert_store.c) against
-- what a place of a text is.
use bear_tls.Base.{
  some_inj, ℕ, zero, suc, ◌+◌, ◌≤◌, ◌<◌, ◌≡◌, refl, sym, ap, ap₂, ◌==◌, true, Bool-cases,
  Option-cases, some, List, [], ◌∷◌, arith, leb, leb→lt, le→leb, length, take, drop, length-take,
  length-drop, ==_iff, inl, inr,
}
use bear_tls.CertStore.Pem.{
  starts_with, find_text_loop, find_text, count_loop, count_pem_certs, begin_marker,
  max_external_root_count,
}

pub starts_with_sound :
    (needle text : List ℕ) → starts_with needle text ≡ true → take (length needle) text ≡ needle
unfolding starts_with
starts_with_sound [] text e = refl
starts_with_sound (n ∷ ns) [] e = cc
starts_with_sound (n ∷ ns) (c ∷ cs) e = elim (Bool-cases (n == c)) [
  | inl same ↦
      ap₂ (λ x xs. x ∷ xs) (sym ((==_iff n c).0 same))
        (starts_with_sound ns cs (rw (same, starts_with) at e))
  | inr other ↦ cc (rw (other, starts_with) at e)
]

starts_with-take :
    (needle text : List ℕ) → take (length needle) text ≡ needle → starts_with needle text ≡ true
unfolding starts_with
starts_with-take [] text e = refl
starts_with-take (n ∷ ns) [] e = cc
starts_with-take (n ∷ ns) (c ∷ cs) e =
    let same : c ≡ n = cc in
    let rest : take (length ns) cs ≡ ns = cc in
    rw ((==_iff n c).1 (sym same)) (starts_with-take ns cs rest)

-- `needle` stands in `text` at the offset `i`.
abbrev pub IsAt : List ℕ → List ℕ → ℕ → Type 0
IsAt text needle i = take (length needle) (drop i text) ≡ needle

find_text_loop_found :
    (needle text : List ℕ) (i : ℕ) → find_text_loop needle text ≡ some i → IsAt text needle i
unfolding find_text_loop
find_text_loop_found needle [] i e = cc
find_text_loop_found needle (c ∷ cs) i e =
    elim (Bool-cases (leb (length needle) (length (c ∷ cs)))) [
      | inr short ↦ cc (rw (find_text_loop, short) at e)
      | inl long ↦ elim (Bool-cases (starts_with needle (c ∷ cs))) [
        | inl here ↦
            let now = rw (find_text_loop, long, here) at e in
            rw (← some_inj now) (starts_with_sound needle (c ∷ cs) here)
        | inr not_here ↦ elim (Option-cases (find_text_loop needle cs)) [
          | inl never ↦ cc (rw (find_text_loop, long, not_here, never) at e)
          | inr (k, later) ↦
              let now = rw (find_text_loop, long, not_here, later) at e in
              rw (← some_inj now) (find_text_loop_found needle cs k later)
        ]
      ]
    ]

long_enough :
    (n : ℕ) (ns text : List ℕ) (j : ℕ)
    → IsAt text (n ∷ ns) j
    → leb (length (n ∷ ns)) (length text) ≡ true
long_enough n ns text j e =
    let l = ap length e in
    le→leb _ _ (omega (arith, l, length-take (length (n ∷ ns)) (drop j text), length-drop j text))

find_text_loop_finds :
    (n : ℕ) (ns text : List ℕ) (j : ℕ)
    → IsAt text (n ∷ ns) j
    → (i : ℕ) × (find_text_loop (n ∷ ns) text ≡ some i) × (i ≤ j)
unfolding find_text_loop
find_text_loop_finds n ns [] zero e = cc
find_text_loop_finds n ns [] (suc j) e = cc
find_text_loop_finds n ns (c ∷ cs) zero e =
    let long = long_enough n ns (c ∷ cs) zero e in
    let here = starts_with-take (n ∷ ns) (c ∷ cs) e in
    (0, rw (find_text_loop, long, here), omega arith)
find_text_loop_finds n ns (c ∷ cs) (suc j) e =
    let long = long_enough n ns (c ∷ cs) (suc j) e in
    elim (Bool-cases (starts_with (n ∷ ns) (c ∷ cs))) [
      | inl here ↦ (0, rw (find_text_loop, long, here), omega arith)
      | inr not_here ↦
          let (i, found, le) = find_text_loop_finds n ns cs j e in
          (suc i, rw (find_text_loop, long, not_here, found), omega arith)
    ]

-- A place that is found is a place of the text that is searched for.
pub find_text_found :
    (text needle : List ℕ) (i : ℕ)
    → find_text text needle ≡ some i
    → take (length needle) (drop i text) ≡ needle
unfolding find_text
find_text_found text [] i e = refl
find_text_found text (n ∷ ns) i e = find_text_loop_found (n ∷ ns) text i e

pub marker_inside :
    (text : List ℕ) (i : ℕ)
    → find_text text begin_marker ≡ some i
    → i + length begin_marker ≤ length text
marker_inside text i e =
    let l = ap length (find_text_found text begin_marker i e) in
    omega (arith, l, length-take (length begin_marker) (drop i text), length-drop i text)

-- Where the text that is searched for stands at an offset, a place is found that is no later.
pub find_text_finds :
    (text needle : List ℕ) (j : ℕ)
    → take (length needle) (drop j text) ≡ needle
    → (i : ℕ) × (find_text text needle ≡ some i) × (i ≤ j)
unfolding find_text
find_text_finds text [] j e = (0, refl, omega arith)
find_text_finds text (n ∷ ns) j e = find_text_loop_finds n ns text j e

pub count_loop_bound :
    (fuel : ℕ) (text : List ℕ) (count : ℕ)
    → count < max_external_root_count
    → count_loop fuel text count ≤ max_external_root_count
unfolding count_loop
count_loop_bound zero text count h = omega arith
count_loop_bound (suc fuel) text count h = elim (Option-cases (find_text text begin_marker)) [
  | inl over ↦ rw (count_loop, over) (omega arith)
  | inr (i, more) ↦ elim (Bool-cases (leb max_external_root_count (count + 1))) [
    | inl full ↦ rw (count_loop, more, full) (omega arith)
    | inr room ↦
        rw (count_loop, more, room)
          (count_loop_bound fuel (drop (i + length begin_marker) text) (count + 1)
            (leb→lt _ _ room))
  ]
]

count_loop_grows : (fuel : ℕ) (text : List ℕ) (count : ℕ) → count ≤ count_loop fuel text count
unfolding count_loop
count_loop_grows zero text count = omega arith
count_loop_grows (suc fuel) text count = elim (Option-cases (find_text text begin_marker)) [
  | inl over ↦ rw (count_loop, over) (omega arith)
  | inr (i, more) ↦ elim (Bool-cases (leb max_external_root_count (count + 1))) [
    | inl full ↦ rw (count_loop, more, full) (omega arith)
    | inr room ↦
        let rest = count_loop_grows fuel (drop (i + length begin_marker) text) (count + 1) in
        rw (count_loop, more, room) (omega (arith, rest))
  ]
]

count_loop_counts :
    (fuel : ℕ) (text : List ℕ) (i : ℕ)
    → find_text text begin_marker ≡ some i
    → 1 ≤ count_loop (suc fuel) text 0
unfolding count_loop
count_loop_counts fuel text i found =
    rw (found, count_loop) (count_loop_grows fuel (drop (i + length begin_marker) text) 1)

-- A file's count of certificates is at most 256, and it is not 0 where the begin marker stands in
-- the text at any offset.
pub count_pem_certs_bound :
    (text : List ℕ) (j : ℕ)
    → take (length begin_marker) (drop j text) ≡ begin_marker
    → (0 < count_pem_certs text) × (count_pem_certs text ≤ max_external_root_count)
unfolding count_pem_certs
count_pem_certs_bound text j e = (
  (let (i, found, le) = find_text_finds text begin_marker j e in
      count_loop_counts 255 text i found),
  count_loop_bound 256 text 0 (omega arith),
)

pub count_pem_certs-le : (text : List ℕ) → count_pem_certs text ≤ max_external_root_count
unfolding count_pem_certs
count_pem_certs-le text = count_loop_bound 256 text 0 (omega arith)
