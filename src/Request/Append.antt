-- ===== src/Request/Append.antt =====
-- What the two append helpers of BearTLS/wm_https.c keep: the buffer holds a terminated text.
use bear_tls.Base.{
  take-length, ℕ, ◌+◌, ◌-◌, ◌≤◌, ◌<◌, ◌≡◌, refl, ◌∙◌, Option, none, some, List, [], ◌∷◌, ◌++◌,
  append_assoc, append-nil, arith, length, take, memcpy, memcpy-append, store-append, store,
  length-append, length-take, take_all, take-append, drop-cons, inl, inr, ◌>>=◌, Bool-cases, ltb,
  ◌==◌, ==_iff, leb→le, Bool, true, false, leb, sym, if◌then◌else◌,
}
use bear_tls.Request.{Writer, append_clipped, append_request_text, append_request_data, append_if}

-- The first `used` cells of an array of `size` cells hold `text`, and a NUL follows.
pub record IsHolding (size : ℕ) (text : List ℕ) (w : Writer) : Type 0 where
  pub used_length : w.used ≡ length text
  pub tail : List ℕ
  pub holds : w.request ≡ text ++ (0 ∷ tail)
  pub sized : length text + 1 + length tail ≡ size

-- A call returned, and left the buffer in such a state.
abbrev pub Leaves : ℕ → List ℕ → Option Writer → Type 0
Leaves size text r = (w : Writer) × (r ≡ some w) × IsHolding size text w

-- Clipping early or late gives the same text.
pub take-take_append {ℓ} :
    {A : Type ℓ} (n : ℕ) (xs ys : List A) → take n (take n xs ++ ys) ≡ take n (xs ++ ys)
take-take_append n xs ys =
    let e : n - length (take n xs) ≡ n - length xs = omega (arith, length-take n xs) in
    take-append (take n xs) ys n
    ∙ rw (e, take_all n (take n xs) (omega (arith, length-take n xs))) (sym (take-append xs ys n))

take-append_clip :
    (size : ℕ) (s text : List ℕ)
    → length s < size
    → take (size - 1) (s ++ text) ≡ s ++ take (size - length s - 1) text
take-append_clip size s text h =
    let e : size - 1 - length s ≡ size - length s - 1 = omega arith in
    take-append s text (size - 1) ∙ rw (e, take_all (size - 1) s (omega arith))

clip_length :
    (room : ℕ) (text : List ℕ)
    → (if ltb room (length text) then room else length text) ≡ length (take room text)
clip_length room text = ground (arith, length-take room text)

-- The copy and the terminator, on a buffer that holds `s`.
copy_terminated :
    (s tail chunk : List ℕ) (used : ℕ)
    → used ≡ length s
    → length chunk ≤ length tail
    → (rest : List ℕ) × ((memcpy (s ++ (0 ∷ tail)) used chunk >>= λ r.
          store r (used + length chunk) 0)
        ≡ some ((s ++ chunk) ++ (0 ∷ rest)))
      × (length rest + length chunk ≡ length tail)
copy_terminated s tail chunk used at fits =
    let (x, rest, e, l) = drop-cons (length chunk) (0 ∷ tail) (omega arith) in
    (
      rest,
      rw
          (
            memcpy-append s (0 ∷ tail) chunk used at (omega arith),
            e,
            ← append_assoc s chunk (x ∷ rest),
          )
          (store-append (s ++ chunk) rest x 0 (used + length chunk)
            (omega (arith, length-append s chunk))),
      omega arith,
    )

append_clipped_lem :
    (size : ℕ) (w : Writer) (text : List ℕ)
    → append_clipped size w text ≡ (
        memcpy w.request w.used (take (size - w.used - 1) text)
        >>= (λ r. store r (w.used + length (take (size - w.used - 1) text)) 0)
        >>= λ r.
            some (record { request = r; used = w.used + length (take (size - w.used - 1) text) }))
unfolding append_clipped
append_clipped_lem size w text =
    rw (clip_length (size - w.used - 1) text, take-length (size - w.used - 1) text)
      (bind_assoc (memcpy w.request w.used (take (size - w.used - 1) text)) _ _)
  where
    bind_assoc :
        {A B C : Type 0} (m : Option A) (f : A → Option B) (g : B → Option C)
        → (m >>= λ a. f a >>= g) ≡ ((m >>= f) >>= g)
    bind_assoc none f g = refl
    bind_assoc (some a) f g = refl

append_clipped-Leaves :
    (size : ℕ) (s text : List ℕ) (w : Writer)
    → IsHolding size s w
    → Leaves size (s ++ take (size - length s - 1) text) (append_clipped size w text)
append_clipped-Leaves size s text w h =
    let chunk = take (size - w.used - 1) text in
    let (rest, e, l) =
      copy_terminated s h.tail chunk w.used h.used_length
        (omega (arith, length-take (size - w.used - 1) text, h.used_length, h.sized)) in
    let same : size - w.used - 1 ≡ size - length s - 1 = omega (arith, h.used_length) in
    rw (← same) (
      record { request = (s ++ chunk) ++ (0 ∷ rest); used = w.used + length chunk },
      append_clipped_lem size w text ∙ rw (h.holds, e),
      record {
        used_length = omega (arith, length-append s chunk, h.used_length);
        tail = rest;
        holds = refl;
        sized = omega (arith, length-append s chunk, h.sized);
      },
    )

full_clip :
    (size : ℕ) (t text : List ℕ)
    → length t < size
    → size - 1 ≤ length t
    → take (size - 1) (t ++ text) ≡ t
full_clip size t text h full =
    let e : size - length t - 1 ≡ 0 = omega arith in
    take-append_clip size t text h ∙ rw e (append-nil t)

append_some-Leaves :
    (size : ℕ) (s text : List ℕ) (w : Writer)
    → IsHolding size (take (size - 1) s) w
    → Leaves size (take (size - 1) (s ++ text)) (
        if size == 0
        then some w
        else if leb (size - 1) w.used
        then some w
        else append_clipped size w text)
append_some-Leaves size s text w h = elim (Bool-cases (size == 0)) [
  | inl e ↦ absurd (omega (arith, (==_iff _ _).0 e, h.sized))
  | inr e ↦
      rw (e, ← take-take_append (size - 1) s text)
        (elim (Bool-cases (leb (size - 1) w.used)) [
          | inl full ↦
              rw
                (
                  full,
                  full_clip size (take (size - 1) s) text (omega (arith, h.sized))
                      (omega (arith, leb→le _ _ full, h.used_length)),
                )
                (w, refl, h)
          | inr room ↦
              rw (room, take-append_clip size (take (size - 1) s) text (omega (arith, h.sized)))
                (append_clipped-Leaves size (take (size - 1) s) text w h)
        ])
]

-- After `s`, clipped, either helper leaves `s` and the new text, clipped.
pub append_request_text-Leaves :
    (size : ℕ) (s text : List ℕ) (w : Writer)
    → IsHolding size (take (size - 1) s) w
    → Leaves size (take (size - 1) (s ++ text)) (append_request_text size w (some text))
unfolding append_request_text
append_request_text-Leaves = append_some-Leaves

pub append_request_data-Leaves :
    (size : ℕ) (s text : List ℕ) (w : Writer)
    → IsHolding size (take (size - 1) s) w
    → Leaves size (take (size - 1) (s ++ text)) (append_request_data size w (some text))
unfolding append_request_data
append_request_data-Leaves = append_some-Leaves

pub append_if-Leaves :
    (size : ℕ) (s text : List ℕ) (b : Bool) (w : Writer)
    → IsHolding size (take (size - 1) s) w
    → Leaves size (take (size - 1) (s ++ (if b then text else []))) (append_if b size w text)
unfolding append_if
append_if-Leaves size s text true w h = append_request_text-Leaves size s text w h
append_if-Leaves size s text false w h = rw (append-nil s) (w, refl, h)

-- Two steps in a row.
pub Leaves-bind :
    {size : ℕ} {s : List ℕ} (t : List ℕ) (m : Option Writer) (f : Writer → Option Writer)
    → Leaves size s m
    → ((w : Writer) → IsHolding size s w → Leaves size t (f w))
    → Leaves size t (m >>= f)
Leaves-bind t m f (w, e, h) k = rw e (k w h)
