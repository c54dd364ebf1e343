-- ===== src/Example/Buffer.antt =====
-- The arrays of the example program: `append_text` and the formatted line of
-- BearTLS/main_example.c.
use bear_tls.Base.{
  ℕ, ◌+◌, ◌-◌, ◌==◌, ◌>>=◌, ap, ◌≤◌, ◌<◌, ◌≡◌, refl, sym, ◌∙◌, Option, some, List, [], ◌∷◌, ◌++◌,
  if◌then◌else◌, ltb, leb, length, take, drop, length-drop, take-append-drop, take-append, take-add,
  append-nil, take_all, drop-cons, memcpy, memcpy-append, store-append, store, c_string, arith,
  Nonzero, c_string-append, Nonzero-take, Bool-cases, inl, inr, Option-cases, length-append,
  length-take, append_assoc,
}
use bear_tls.Request.{append_request_text, append_clipped}
use bear_tls.Request.Append.{append_request_text-Leaves}
use bear_tls.Connection.Response.{HoldsText}
use bear_tls.Example.{append_text, line_size, print_line}

-- A call that leaves `text` in an array of `size` cells.
abbrev pub Leaves : ℕ → List ℕ → Option (List ℕ) → Type 0
Leaves size text o = (cells : List ℕ) × (o ≡ some cells) × HoldsText size text cells

-- The library's own append does the same on such an array.
append_clipped_lem :
    (size : ℕ) (dst src : List ℕ) (used want : ℕ)
    → (if ltb (size - used - 1) (length src) then size - used - 1 else length src) ≡ want
    → (memcpy dst used (take want src) >>= λ copied. store copied (used + want) 0)
      ≡ (append_clipped size (record { request = dst; used = used }) src >>= λ w. some w.request)
unfolding append_clipped
append_clipped_lem size dst src used want e =
    elim (Option-cases (memcpy dst used (take want src))) [
      | inl f ↦ rw (append_clipped, e, f) refl
      | inr (copied, f) ↦ elim (Option-cases (store copied (used + want) 0)) [
        | inl g ↦ rw (append_clipped, e, f, g) refl
        | inr (ended, g) ↦ rw (append_clipped, e, f, g) refl
      ]
    ]

append_text_lem :
    (size : ℕ) (dst src : List ℕ)
    → append_text dst size src ≡ (
        append_request_text size (record { request = dst; used = length (c_string dst) }) (some src)
        >>= λ w. some w.request)
unfolding append_text append_request_text
append_text_lem size dst src =
    let used = length (c_string dst) in
    let e : size - 1 - used ≡ size - used - 1 = omega arith in
    elim (Bool-cases (size == 0)) [
      | inl z ↦ rw (append_text, append_request_text, z) refl
      | inr z ↦ elim (Bool-cases (leb (size - 1) used)) [
        | inl full ↦ rw (append_text, append_request_text, z, full) refl
        | inr room ↦
            rw (append_text, append_request_text, z, room, e)
              (append_clipped_lem size dst src used _ refl)
      ]
    ]

pub append_text-Leaves :
    (size : ℕ) (text src dst : List ℕ)
    → Nonzero text
    → HoldsText size (take (size - 1) text) dst
    → Leaves size (take (size - 1) (text ++ src)) (append_text dst size src)
append_text-Leaves size text src dst n (rest, c, l) =
    let held : c_string dst ≡ take (size - 1) text =
      rw c (c_string-append (take (size - 1) text) rest (Nonzero-take (size - 1) text n)) in
    let sum = ap length c ∙ length-append (take (size - 1) text) (0 ∷ rest) in
    let (w, e, h) =
      append_request_text-Leaves size text src
        (record { request = dst; used = length (c_string dst) })
        (record {
          used_length = ap length held;
          tail = rest;
          holds = c;
          sized = omega (arith, sum, l);
        }) in
    (
      w.request,
      append_text_lem size dst src ∙ rw e refl,
      (
        h.tail,
        h.holds,
        omega (
          arith,
          ap length h.holds,
          length-append (take (size - 1) (text ++ src)) (0 ∷ h.tail),
          h.sized,
        ),
      ),
    )

-- The beginning of a text in the array of a line.
pub copy_line-Leaves :
    (line chunk : List ℕ) (n : ℕ)
    → length line ≡ line_size
    → length chunk ≡ n
    → n < line_size
    → Leaves line_size chunk (memcpy line 0 chunk >>= λ copied. store copied n 0)
copy_line-Leaves line chunk n l ln fits =
    let (x, rest, e, size) = drop-cons (length chunk) line (omega arith) in
    let copied : memcpy line 0 chunk ≡ some (chunk ++ (x ∷ rest)) =
      memcpy-append [] line chunk 0 refl (omega arith) ∙ rw e refl in
    (
      chunk ++ (0 ∷ rest),
      rw copied (store-append chunk rest x 0 n (sym ln)),
      (rest, refl, omega (arith, length-append chunk (0 ∷ rest), size, l)),
    )

print_short :
    (line text : List ℕ)
    → length line ≡ line_size
    → length text < 255
    → Leaves line_size text (print_line line text)
unfolding print_line
print_short line text l short =
    let ended = text ++ (0 ∷ []) in
    let one : length ended ≡ length text + 1 = length-append text (0 ∷ []) in
    let rest = drop (length ended) line in
    let lr = length-drop (length ended) line in
    let whole : take line_size ended ≡ ended = take_all 256 ended (omega (arith, one)) in
    let (x, more, e, size) = drop-cons (254 - length text) rest (omega (arith, one, lr, l)) in
    let before = take (254 - length text) rest in
    let lb = length-take (254 - length text) rest in
    let parts : rest ≡ before ++ (x ∷ more) =
      sym (take-append-drop (254 - length text) rest) ∙ ap (λ t. before ++ t) e in
    let copied : memcpy line 0 ended ≡ some ((ended ++ before) ++ (x ∷ more)) =
      memcpy-append [] line ended 0 refl (omega (arith, one, l))
      ∙ ap (λ t. some (ended ++ t)) parts
      ∙ ap some (sym (append_assoc ended before (x ∷ more))) in
    let la = length-append ended before in
    let last = store-append (ended ++ before) more x 0 255 (omega (arith, la, one, lb, lr, l)) in
    let shape : (ended ++ before) ++ (0 ∷ more) ≡ text ++ (0 ∷ (before ++ (0 ∷ more))) =
      append_assoc ended before (0 ∷ more) ∙ append_assoc text (0 ∷ []) (before ++ (0 ∷ more)) in
    (
      (ended ++ before) ++ (0 ∷ more),
      rw (print_line, whole, copied) last,
      (
        before ++ (0 ∷ more),
        shape,
        omega (arith, length-append (ended ++ before) (0 ∷ more), la, one, lb, lr, l, size),
      ),
    )

print_long :
    (line text : List ℕ)
    → length line ≡ line_size
    → 255 ≤ length text
    → Leaves line_size (take 255 text) (print_line line text)
unfolding print_line
print_long line text l long =
    let ended = text ++ (0 ∷ []) in
    let one : length ended ≡ length text + 1 = length-append text (0 ∷ []) in
    let (x, more, e, size) = drop-cons 255 ended (omega (arith, one)) in
    let start = take 255 text in
    let ls = length-take 255 text in
    let none_left : 255 - length text ≡ 0 = omega arith in
    let cut : take 255 ended ≡ start =
      take-append text (0 ∷ []) 255 ∙ rw none_left (append-nil start) in
    let src : take line_size ended ≡ start ++ (x ∷ []) = take-add 255 1 ended ∙ rw (cut, e) refl in
    let ll : length (start ++ (x ∷ [])) ≡ length start + 1 = length-append start (x ∷ []) in
    let after : List ℕ = drop (length (start ++ (x ∷ []))) line in
    let copied : memcpy line 0 (take line_size ended) ≡ some (start ++ (x ∷ after)) = rw src (
      memcpy-append [] line (start ++ (x ∷ [])) 0 refl (omega (arith, ll, ls, l))
      ∙ ap some (append_assoc start (x ∷ []) after)) in
    (
      start ++ (0 ∷ after),
      rw (print_line, copied) (store-append start after x 0 255 (omega (arith, ls))),
      (
        after,
        refl,
        omega (
          arith,
          length-append start (0 ∷ after),
          length-drop (length (start ++ (x ∷ []))) line,
          ll,
          ls,
          l,
        ),
      ),
    )

-- A formatted line is cut to 255 characters.
pub print_line-Leaves :
    (line text : List ℕ)
    → length line ≡ line_size
    → Leaves line_size (take (line_size - 1) text) (print_line line text)
print_line-Leaves line text l = elim (Bool-cases (ltb (length text) 255)) [
  | inl short ↦ rw (take_all 255 text (ground arith)) (print_short line text l (ground arith))
  | inr long ↦ print_long line text l (ground arith)
]
