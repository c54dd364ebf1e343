-- ===== src/Example/Line.antt =====
-- The first line of a response, for `append_status_line` of BearTLS/main_example.c.
use bear_tls.Base.{
  ℕ, suc, ◌==◌, ◌&&◌, ap, ◌≡◌, refl, true, false, some, List, [], ◌∷◌, if◌then◌else◌, leb, length,
  take, arith, Bool-cases, inl, inr, Option-cases,
}
use bear_tls.Request.{crlf}
use bear_tls.CertStore.Pem.{starts_with, find_text, find_text_loop, next_offset}
use bear_tls.Example.{line_end}

-- The text before the first CR LF, and all of it where there is none.
unfoldable pub first_line : List ℕ → List ℕ
first_line [] = []
first_line (c ∷ []) = c ∷ []
first_line (c ∷ (d ∷ cs)) = elim (c == 13 && d == 10) [
  | true ↦ []
  | false ↦ c ∷ first_line (d ∷ cs)
]

same_start : (c d : ℕ) (cs : List ℕ) → starts_with crlf (c ∷ (d ∷ cs)) ≡ (c == 13 && d == 10)
unfolding starts_with
same_start c d cs = ground arith

loop_step :
    (c d : ℕ) (cs : List ℕ)
    → leb 2 (length (c ∷ (d ∷ cs))) ≡ true
    → find_text_loop crlf (c ∷ (d ∷ cs))
      ≡ (if c == 13 && d == 10 then some 0 else next_offset (find_text_loop crlf (d ∷ cs)))
unfolding find_text_loop
loop_step c d cs long = elim (Bool-cases (c == 13 && d == 10)) [
  | inl here ↦ rw (find_text_loop, long, same_start c d cs, here) refl
  | inr not_here ↦ rw (find_text_loop, long, same_start c d cs, not_here) refl
]

line_end-nil : (take {A = ℕ} (line_end []) [] ≡ []) × (length {A = ℕ} [] ≡ line_end [])
unfolding line_end find_text find_text_loop
line_end-nil = (refl, refl)

line_end-one : (c : ℕ) → (take (line_end (c ∷ [])) (c ∷ []) ≡ c ∷ []) × (1 ≡ line_end (c ∷ []))
unfolding line_end find_text find_text_loop
line_end-one c = (refl, refl)

line_end-cons :
    (c d : ℕ) (cs : List ℕ)
    → line_end (c ∷ (d ∷ cs)) ≡ (if c == 13 && d == 10 then 0 else suc (line_end (d ∷ cs)))
unfolding line_end find_text
line_end-cons c d cs =
    let long : leb 2 (length (c ∷ (d ∷ cs))) ≡ true = ground arith in
    let step : find_text_loop crlf (c ∷ (d ∷ cs))
        ≡ (if c == 13 && d == 10 then some 0 else next_offset (find_text_loop crlf (d ∷ cs))) =
      loop_step c d cs long in
    rw (line_end, find_text, step)
      (elim (Bool-cases (c == 13 && d == 10)) [
        | inl here ↦ rw here refl
        | inr not_here ↦ rw not_here (elim (Option-cases (find_text_loop crlf (d ∷ cs))) [
          | inl never ↦ rw never refl
          | inr (k, later) ↦ rw later refl
        ])
      ])

pub line_end_lem :
    (text : List ℕ)
    → (take (line_end text) text ≡ first_line text) × (length (first_line text) ≡ line_end text)
unfolding first_line
line_end_lem [] = line_end-nil
line_end_lem (c ∷ []) = line_end-one c
line_end_lem (c ∷ (d ∷ cs)) =
    let (ih, size) = line_end_lem (d ∷ cs) in
    elim (Bool-cases (c == 13 && d == 10)) [
      | inl here ↦ rw (line_end-cons c d cs, here, first_line) (refl, refl)
      | inr not_here ↦
          rw (line_end-cons c d cs, not_here, first_line) (ap (λ t. c ∷ t) ih, ap suc size)
    ]
