-- ===== src/Mega/Session.antt =====
-- What `wm_mega_rsa_decrypt_session` (BearTLS/wm_https.c) writes into the caller's array: the first
-- bytes of the plaintext, padded with zeros to the width that the code computes.
use bear_tls.Base.{
  ℕ, zero, suc, ◌+◌, ◌-◌, ◌≤◌, ◌<◌, ◌≡◌, refl, ap, ap₂, ◌∙◌, sym, true, false, some, List, [], ◌∷◌,
  ◌++◌, append_assoc, append-nil, arith, length, length-append, ltb, leb, get_or, take, drop,
  length-take, replicate, length-replicate, length-drop, take-append_left, if◌then◌else◌,
  Bool-cases, inl, inr, ◌==◌, store-append, get_elem?, memcpy_total, false, le→ltb, max, ltb→lt,
  ltb→le, le→leb, lt→leb,
}
use bear_tls.Mega.{
  refused, session, actual_len, move_down, memmove, sid_byte, sid_loop, write_sid, extract_sid,
}

-- The bytes of a number without its leading zeros.
abbrev pub significant : List ℕ → List ℕ
significant [] = []
significant (x ∷ bytes) = if x == 0 then significant bytes else x ∷ bytes

significant-le : (bytes : List ℕ) → length (significant bytes) ≤ length bytes
significant-le [] = omega arith
significant-le (x ∷ bytes) = ground (arith, significant-le bytes)

-- The length that the loop counts, in an array of `len` cells at least.
actual_len-eq-length :
    (len : ℕ) (cells : List ℕ)
    → len ≤ length cells
    → actual_len cells len ≡ some (length (significant (take len cells)))
unfolding actual_len
actual_len-eq-length zero cells h = refl
actual_len-eq-length (suc len) [] h = absurd (omega arith)
actual_len-eq-length (suc len) (x ∷ cells) h = elim (Bool-cases (x == 0)) [
  | inl z ↦ rw z (actual_len-eq-length len cells (omega arith))
  | inr n ↦
      let e : length (take len cells) ≡ len = omega (arith, length-take len cells) in rw (n, e) refl
]

significant-eq-drop :
    (bytes : List ℕ) → significant bytes ≡ drop (length bytes - length (significant bytes)) bytes
significant-eq-drop [] = refl
significant-eq-drop (x ∷ bytes) = elim (Bool-cases (x == 0)) [
  | inl z ↦
      let e : suc (length bytes) - length (significant bytes)
          ≡ suc (length bytes - length (significant bytes)) =
        omega (arith, significant-le bytes) in
      rw (z, e) (significant-eq-drop bytes)
  | inr n ↦ let e : suc (length bytes) - suc (length bytes) ≡ 0 = omega arith in rw (n, e)
]

-- The first `n` values of a function.
abbrev tabulate : ℕ → (ℕ → ℕ) → List ℕ
tabulate zero f = []
tabulate (suc n) f = tabulate n f ++ (f n ∷ [])

split_last :
    (n : ℕ) (xs : List ℕ)
    → length xs ≡ suc n
    → (front : List ℕ) × (y : ℕ) × (xs ≡ front ++ (y ∷ [])) × (length front ≡ n)
split_last n [] h = absurd (omega arith)
split_last zero (x ∷ []) h = ([], x, refl, refl)
split_last zero (x ∷ y ∷ xs) h = absurd (omega arith)
split_last (suc n) (x ∷ xs) h =
    let (front, y, e, l) = split_last n xs (omega arith) in (x ∷ front, y, rw e, omega arith)

-- The loop, where each of its reads gives the value of a function.
module _ (x : List ℕ) (actual base sid_len : ℕ) (f : ℕ → ℕ)
    (reads : (k : ℕ)
      → k < sid_len
      → sid_byte x actual (base + (sid_len - suc k)) ≡ some (f k)) where
  sid_loop_lem :
      (i : ℕ) (front back : List ℕ)
      → i ≤ sid_len
      → length front ≡ i
      → sid_loop x actual base sid_len i (front ++ back) ≡ some (tabulate i f ++ back)
  unfolding sid_loop
  sid_loop_lem zero [] back h l = refl
  sid_loop_lem zero (y ∷ front) back h l = absurd (omega arith)
  sid_loop_lem (suc i) front back h l =
      let (rest, y, e, lr) = split_last i front l in
      rw
        (
          e,
          reads i (omega arith),
          append_assoc rest (y ∷ []) back,
          store-append rest back y (f i) i (sym lr),
        )
        (sid_loop_lem i rest (f i ∷ back) (omega arith) lr
          ∙ ap some (sym (append_assoc (tabulate i f) (f i ∷ []) back)))

get_elem?-eq-get_or : (xs : List ℕ) (i : ℕ) → i < length xs → get_elem? xs i ≡ some (get_or xs i 0)
get_elem?-eq-get_or [] i h = absurd (omega arith)
get_elem?-eq-get_or (x ∷ xs) zero h = refl
get_elem?-eq-get_or (x ∷ xs) (suc i) h = get_elem?-eq-get_or xs i (omega arith)

take-suc :
    (n : ℕ) (xs : List ℕ) → n < length xs → take (suc n) xs ≡ take n xs ++ (get_or xs n 0 ∷ [])
take-suc n [] h = absurd (omega arith)
take-suc zero (x ∷ xs) h = refl
take-suc (suc n) (x ∷ xs) h = ap (λ t. x ∷ t) (take-suc n xs (omega arith))

tabulate-eq-take :
    (n : ℕ) (f : ℕ → ℕ) (xs : List ℕ)
    → n ≤ length xs
    → ((k : ℕ) → k < n → f k ≡ get_or xs k 0)
    → tabulate n f ≡ take n xs
tabulate-eq-take zero f xs h e = refl
tabulate-eq-take (suc n) f xs h e =
    ap₂ (λ l v. l ++ (v ∷ [])) (tabulate-eq-take n f xs (omega arith) (λ k p. e k (omega arith)))
      (e n (omega arith))
    ∙ sym (take-suc n xs h)

get_or-padded :
    (pad : ℕ) (s : List ℕ) (k : ℕ)
    → get_or (replicate pad 0 ++ s) k 0 ≡ (if ltb k pad then 0 else get_or s (k - pad) 0)
get_or-padded zero s k = let e : k - 0 ≡ k = omega arith in rw e (ground arith)
get_or-padded (suc pad) s zero = ground arith
get_or-padded (suc pad) s (suc k) =
    let e : suc k - suc pad ≡ k - pad = omega arith in rw e (ground (arith, get_or-padded pad s k))

get_or-take : (n : ℕ) (xs : List ℕ) (i : ℕ) → i < n → get_or (take n xs) i 0 ≡ get_or xs i 0
get_or-take zero xs i h = absurd (omega arith)
get_or-take (suc n) [] i h = refl
get_or-take (suc n) (x ∷ xs) zero h = refl
get_or-take (suc n) (x ∷ xs) (suc i) h = get_or-take n xs i (omega arith)

drop-take {ℓ} : {A : Type ℓ} (k m : ℕ) (xs : List A) → drop k (take (k + m) xs) ≡ take m (drop k xs)
drop-take zero m xs = let e : 0 + m ≡ m = omega arith in rw e
drop-take (suc k) zero [] = let e : suc k + 0 ≡ suc k = omega arith in rw e
drop-take (suc k) (suc m) [] = let e : suc k + suc m ≡ suc (k + suc m) = omega arith in rw e
drop-take (suc k) m (x ∷ xs) =
    let e : suc k + m ≡ suc (k + m) = omega arith in rw e (drop-take k m xs)

module _ (xlen : ℕ) (x : List ℕ) (fits : xlen ≤ length x) where
  abbrev bytes_of : List ℕ
  bytes_of = significant (take xlen x)

  abbrev actual_of : ℕ
  actual_of = length bytes_of

  actual_of-le : actual_of ≤ xlen
  actual_of-le = omega (arith, significant-le (take xlen x), length-take xlen x)

  bytes_of-eq : bytes_of ≡ take actual_of (drop (xlen - actual_of) x)
  bytes_of-eq =
      let h = actual_of-le in
      let e : length (take xlen x) - actual_of ≡ xlen - actual_of =
        omega (arith, length-take xlen x) in
      let f : xlen - actual_of + actual_of ≡ xlen = omega (arith, h) in
      significant-eq-drop (take xlen x)
      ∙ rw e (
          ap (λ n. drop (xlen - actual_of) (take n x)) (sym f)
          ∙ drop-take (xlen - actual_of) actual_of x)

  -- After the move, which does not fault, the array begins with the significant bytes.
  moved :
      (x' : List ℕ) × ((if ltb actual_of xlen then move_down xlen actual_of x else some x)
        ≡ some x')
      × (take actual_of x' ≡ bytes_of)
  unfolding move_down memmove
  moved =
      let src = take actual_of (drop (xlen - actual_of) x) in
      let size : length src ≡ actual_of = omega (
        arith,
        fits,
        actual_of-le,
        length-take actual_of (drop (xlen - actual_of) x),
        length-drop (xlen - actual_of) x,
      ) in
      let inside : ltb (length x) (xlen - actual_of + actual_of) ≡ false =
        le→ltb _ _ (omega (arith, actual_of-le)) in
      elim (Bool-cases (ltb actual_of xlen)) [
        | inl e ↦ (
          src ++ drop (0 + length src) x,
          rw (e, inside) (memcpy_total x 0 src (omega (arith, size, actual_of-le))),
          take-append_left src (drop (0 + length src) x) actual_of (sym size) ∙ sym bytes_of-eq,
        )
        | inr e ↦
            let z : xlen - actual_of ≡ 0 = omega (arith, ltb→le _ _ e) in
            (x, rw e refl, sym (bytes_of-eq ∙ rw z))
      ]

  module _ (sid_len width : ℕ) (room : sid_len ≤ width) (wide : actual_of ≤ width) where
    abbrev padded : List ℕ
    padded = replicate (width - actual_of) 0 ++ bytes_of

    -- Each read of the loop is in the array, and gives a byte of the padded number.
    sid_byte-padded :
        (x' : List ℕ) (k : ℕ)
        → take actual_of x' ≡ bytes_of
        → k < sid_len
        → sid_byte x' actual_of (width - sid_len + (sid_len - suc k)) ≡ some (get_or padded k 0)
    sid_byte-padded x' k e h =
        let pad = width - actual_of in
        let index = width - sid_len + (sid_len - suc k) in
        elim (Bool-cases (ltb k pad)) [
          | inl p ↦
              let q : leb actual_of index ≡ true = le→leb _ _ (omega (arith, ltb→lt _ _ p)) in
              rw (get_or-padded pad bytes_of k, p, q) refl
          | inr p ↦
              let below : index < actual_of = omega (arith, ltb→le _ _ p) in
              let q : leb actual_of index ≡ false = lt→leb _ _ below in
              let place : actual_of - 1 - index ≡ k - pad = omega (arith, ltb→le _ _ p) in
              let long : actual_of ≤ length x' =
                omega (arith, length-take actual_of x', ap length e) in
              rw (get_or-padded pad bytes_of k, p, q, place)
                (get_elem?-eq-get_or x' (k - pad) (omega arith)
                  ∙ ap some (
                      sym (get_or-take actual_of x' (k - pad) (omega arith))
                      ∙ ap (λ t. get_or t (k - pad) 0) e))
        ]

    sid_loop-padded :
        (x' sid : List ℕ)
        → take actual_of x' ≡ bytes_of
        → length sid ≡ sid_len
        → sid_loop x' actual_of (width - sid_len) sid_len sid_len sid ≡ some (take sid_len padded)
    sid_loop-padded x' sid e l =
        let enough : sid_len ≤ length padded = omega (
          arith,
          length-append (replicate (width - actual_of) 0) bytes_of,
          length-replicate {A = ℕ} (width - actual_of) 0,
        ) in
        ap (sid_loop x' actual_of (width - sid_len) sid_len sid_len) (sym (append-nil sid))
        ∙ sid_loop_lem x' actual_of (width - sid_len) sid_len (λ k. get_or padded k 0)
            (λ k h. sid_byte-padded x' k e h) sid_len sid [] (omega arith) l
        ∙ ap some (
            append-nil _
            ∙ tabulate-eq-take sid_len (λ k. get_or padded k 0) padded enough (λ k h. refl))

-- With a plaintext of `xlen` bytes in the array `x`, the caller's array of `sid_len` cells gets the
-- first `sid_len` bytes of the plaintext, stripped of its leading zeros and padded on the left to
-- `xlen - 2` bytes, or to its own length if that is larger; a longer `sid_len` is refused. There is
-- no fault, so neither a read of `x` nor a write leaves its array.
pub extract_sid-eq-padded :
    (xlen : ℕ) (x : List ℕ) (sid_len : ℕ) (sid : List ℕ)
    → xlen ≤ length x
    → length sid ≡ sid_len
    → let plain = significant (take xlen x) in
      let width = max (xlen - 2) (length plain) in
      extract_sid xlen x sid_len sid ≡ (
        if ltb width sid_len
        then refused
        else session (take sid_len (replicate (width - length plain) 0 ++ plain)))
unfolding extract_sid write_sid
extract_sid-eq-padded xlen x sid_len sid fits l =
    let n = length (significant (take xlen x)) in
    let width = max (xlen - 2) n in
    let e : (if ltb (xlen - 2) n then n else xlen - 2) ≡ width = ground arith in
    let (x', on, front) = moved xlen x fits in
    rw (extract_sid, actual_len-eq-length xlen x fits, on, write_sid, e)
      (elim (Bool-cases (ltb width sid_len)) [
        | inl narrow ↦ rw narrow refl
        | inr enough ↦
            rw
              (
                enough,
                sid_loop-padded xlen x fits sid_len width (ltb→le _ _ enough) (omega arith) x' sid
                    front l,
              )
              refl
      ])
