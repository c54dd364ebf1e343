-- ===== src/CertStore/Marks.antt =====
-- The certificates that `wm_cert_store_count_pem_certs` of BearTLS/wm_cert_store.c counts, against
-- a single pass over the text.
use bear_tls.Base.{
  ℕ, zero, suc, ◌+◌, ◌-◌, ◌≤◌, ◌<◌, ◌≡◌, refl, ap, ◌∙◌, true, false, Bool-cases, Option-cases,
  Option, none, some, List, [], ◌∷◌, arith, leb, leb→le, leb→lt, length, drop, drop-drop,
  length-take, length-drop, min, inl, inr,
}
use bear_tls.CertStore.Pem.{
  starts_with, find_text_loop, find_text, next_offset, count_loop, count_pem_certs, begin_marker,
  max_external_root_count,
}
use bear_tls.CertStore.Search.{starts_with_sound}

-- The begin markers in a text, from the left and none inside another; `skip` cells of the text are
-- still part of the last one.
unfoldable pub marks : ℕ → List ℕ → ℕ
marks skip [] = 0
marks zero (c ∷ cs) = elim (starts_with begin_marker (c ∷ cs)) [
  | true ↦ suc (marks 26 cs)
  | false ↦ marks 0 cs
]
marks (suc skip) (c ∷ cs) = marks skip cs

pub marks-drop : (k : ℕ) (text : List ℕ) → marks k text ≡ marks 0 (drop k text)
unfolding marks
marks-drop zero [] = refl
marks-drop zero (c ∷ cs) = refl
marks-drop (suc k) [] = refl
marks-drop (suc k) (c ∷ cs) = marks-drop k cs

marks_here :
    (c : ℕ) (cs : List ℕ)
    → starts_with begin_marker (c ∷ cs) ≡ true
    → marks 0 (c ∷ cs) ≡ suc (marks 0 (drop 26 cs))
unfolding marks
marks_here c cs e = rw (e, marks) (ap suc (marks-drop 26 cs))

marks_next :
    (c : ℕ) (cs : List ℕ)
    → starts_with begin_marker (c ∷ cs) ≡ false
    → marks 0 (c ∷ cs) ≡ marks 0 cs
unfolding marks
marks_next c cs e = rw (e, marks) refl

long_text : (text : List ℕ) → starts_with begin_marker text ≡ true → 27 ≤ length text
long_text text e =
    omega (arith, ap length (starts_with_sound begin_marker text e), length-take 27 text)

marks_short : (text : List ℕ) → length text < 27 → marks 0 text ≡ 0
unfolding marks
marks_short [] short = refl
marks_short (c ∷ cs) short = elim (Bool-cases (starts_with begin_marker (c ∷ cs))) [
  | inl here ↦ absurd (omega (arith, long_text (c ∷ cs) here))
  | inr next ↦ marks_next c cs next ∙ marks_short cs (omega arith)
]

-- What a search for the begin marker tells of the rest.
abbrev pub After : List ℕ → Option ℕ → Type 0
After text none = marks 0 text ≡ 0
After text (some i) = marks 0 text ≡ suc (marks 0 (drop (i + 27) text))

After-next :
    (c : ℕ) (cs : List ℕ) (o : Option ℕ)
    → After cs o
    → marks 0 (c ∷ cs) ≡ marks 0 cs
    → After (c ∷ cs) (next_offset o)
After-next c cs none a e = e ∙ a
After-next c cs (some i) a e = let z : suc i + 27 ≡ suc (i + 27) = omega arith in rw z (e ∙ a)

find_text_loop-After : (text : List ℕ) → After text (find_text_loop begin_marker text)
unfolding find_text_loop
find_text_loop-After [] = marks_short [] (omega arith)
find_text_loop-After (c ∷ cs) = elim (Bool-cases (leb 27 (length (c ∷ cs)))) [
  | inr short ↦ rw (find_text_loop, short) (marks_short (c ∷ cs) (leb→lt 27 _ short))
  | inl long ↦ elim (Bool-cases (starts_with begin_marker (c ∷ cs))) [
    | inl here ↦ rw (find_text_loop, long, here) (marks_here c cs here)
    | inr next ↦
        rw (find_text_loop, long, next)
          (After-next c cs _ (find_text_loop-After cs) (marks_next c cs next))
  ]
]

pub find_text-After : (text : List ℕ) → After text (find_text text begin_marker)
unfolding find_text
find_text-After text = find_text_loop-After text

count_loop-marks :
    (fuel : ℕ) (text : List ℕ) (count : ℕ)
    → count + fuel ≡ max_external_root_count
    → 0 < fuel
    → count_loop fuel text count ≡ min max_external_root_count (count + marks 0 text)
unfolding count_loop
count_loop-marks zero text count sum pos = absurd (omega arith)
count_loop-marks (suc fuel) text count sum pos =
    let found = find_text-After text in
    elim (Option-cases (find_text text begin_marker)) [
      | inl over ↦
          let zeros : marks 0 text ≡ 0 = rw over at found in
          rw (count_loop, over, zeros) (omega arith)
      | inr (i, more) ↦
          let step : marks 0 text ≡ suc (marks 0 (drop (i + 27) text)) = rw more at found in
          elim (Bool-cases (leb max_external_root_count (count + 1))) [
            | inl full ↦
                let last = leb→le max_external_root_count (count + 1) full in
                rw (count_loop, more, full) (omega arith)
            | inr room ↦
                let left = leb→lt max_external_root_count (count + 1) room in
                let ih =
                  count_loop-marks fuel (drop (i + 27) text) (count + 1) (omega arith)
                    (omega arith) in
                rw (count_loop, more, room) (ih ∙ omega arith)
          ]
    ]

-- The count of a file is the number of begin markers that a single pass from the left finds, none
-- inside another, and 256 where there are more.
pub count_pem_certs-eq-marks :
    (text : List ℕ) → count_pem_certs text ≡ min max_external_root_count (marks 0 text)
unfolding count_pem_certs
count_pem_certs-eq-marks text =
    count_loop-marks max_external_root_count text 0 refl (omega arith) ∙ omega arith

-- From a later place on there are no more markers, and up to 27 cells later at most one less.
abbrev Later : ℕ → Type 0
Later n =
    (text : List ℕ) (k : ℕ)
    → length text ≤ n
    → (marks 0 (drop k text) ≤ marks 0 text) × (k ≤ 27 → marks 0 text ≤ 1 + marks 0 (drop k text))

later : (n : ℕ) → Later n
later n [] zero le = (omega arith, λ h. omega arith)
later n [] (suc k) le = (omega arith, λ h. omega arith)
later n (c ∷ cs) zero le = (omega arith, λ h. omega arith)
later zero (c ∷ cs) (suc k) le = absurd (omega arith)
later (suc n) (c ∷ cs) (suc k) le = elim (Bool-cases (starts_with begin_marker (c ∷ cs))) [
  | inr next ↦
      let (fewer, close) = later n cs k (omega arith) in
      let e = marks_next c cs next in
      (omega (arith, e, fewer), λ h. omega (arith, e, close (omega arith)))
  | inl here ↦
      let e = marks_here c cs here in
      let (fewer, close) = later n cs k (omega arith) in
      let (fewer', close') = later n cs 26 (omega arith) in
      let one = close' (omega arith) in
      (
        omega (arith, e, fewer, one),
        λ h.
            let (rest, _) = later n (drop k cs) (26 - k) (omega (arith, length-drop k cs)) in
            let z : k + (26 - k) ≡ 26 = omega arith in
            let same : marks 0 (drop (26 - k) (drop k cs)) ≡ marks 0 (drop 26 cs) =
              rw (drop-drop (26 - k) k cs, z) refl in
            omega (arith, e, rest, same),
      )
]

pub marks-drop-le : (k : ℕ) (text : List ℕ) → marks 0 (drop k text) ≤ marks 0 text
marks-drop-le k text = (later (length text) text k (omega arith)).0
