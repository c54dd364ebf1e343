-- ===== src/Example/Report.antt =====
-- The report of the example program.
use bear_tls.Base.{
  ℕ, ◌-◌, ◌>>=◌, ap, ◌<◌, ◌≡◌, refl, sym, ◌∙◌, true, Option, List, [], ◌∷◌, ◌++◌, if◌then◌else◌,
  ltb, ltb→lt, ltb→le, lt→ltb, length, take, drop, take-append-drop, take-append, append-nil,
  take_all, memcpy, store, codes, c_string, arith, Nonzero, c_string-append, Nonzero-append,
  Nonzero-take, Bool-cases, >>=-eq-some, inl, inr, length-take, append_assoc,
}
use bear_tls.Request.{crlf}
use bear_tls.Connection.Response.{HoldsText}
use bear_tls.Example.{append_text, line_size, line_end, line_length, append_status_line}
use bear_tls.Example.Line.{first_line, line_end_lem}
use bear_tls.Example.Buffer.{Leaves, append_text-Leaves, copy_line-Leaves, print_line-Leaves}

-- The line of the report for one response: the host, its first line, cut to 120 characters, and CR
-- LF.
abbrev pub shown : List ℕ → List ℕ
shown [] = codes "(no response line)"
shown (c ∷ cs) = take 120 (c ∷ cs)

abbrev pub status_line : List ℕ → List ℕ → List ℕ
status_line host response =
    take (line_size - 1) (host ++ codes ": ") ++ (shown (first_line response) ++ crlf)

line_length_lem :
    (response : List ℕ)
    → (take (line_length response) response ≡ take 120 (first_line response))
      × (length (take 120 (first_line response)) ≡ line_length response)
unfolding line_length
line_length_lem response =
    let (e, size) = line_end_lem response in
    let lt = length-take 120 (first_line response) in
    elim (Bool-cases (ltb 120 (line_end response))) [
      | inl long ↦
          let le = ltb→lt 120 (line_end response) long in
          let none_left : 120 - length (first_line response) ≡ 0 = omega (arith, size) in
          let cut : take 120 response ≡ take 120 (first_line response) =
            ap (take 120) (
              sym (take-append-drop (line_end response) response)
              ∙ ap (λ t. t ++ drop (line_end response) response) e)
            ∙ take-append (first_line response) (drop (line_end response) response) 120
            ∙ rw none_left (append-nil (take 120 (first_line response))) in
          rw (line_length, long) (cut, omega (arith, lt, size))
      | inr short ↦
          let all : take 120 (first_line response) ≡ first_line response =
            take_all 120 (first_line response)
              (omega (arith, size, ltb→le 120 (line_end response) short)) in
          rw (line_length, short, all) (e, size)
    ]

Leaves-bind :
    (size : ℕ) (s t : List ℕ) (m : Option (List ℕ)) (f : List ℕ → Option (List ℕ))
    → Leaves size s m
    → ((r : List ℕ) → HoldsText size s r → Leaves size t (f r))
    → Leaves size t (m >>= f)
Leaves-bind size s t m f (r, e, h) k = rw e (k r h)

shown-Nonzero : (line : List ℕ) → Nonzero (take 120 line) → Nonzero (shown line)
shown-Nonzero [] n = ground arith
shown-Nonzero (c ∷ cs) n = n

shown_lem :
    (line : List ℕ)
    → shown line
      ≡ (if ltb 0 (length (take 120 line)) then take 120 line else codes "(no response line)")
shown_lem [] = refl
shown_lem (c ∷ cs) =
    let some_length : ltb 0 (length (take 120 (c ∷ cs))) ≡ true = lt→ltb 0 _ (omega arith) in
    rw some_length refl

-- The part of the response goes behind the report.
append_shown-Leaves :
    (size : ℕ) (text chunk printed report : List ℕ) (line_len : ℕ)
    → Nonzero text
    → Nonzero chunk
    → length chunk ≡ line_len
    → line_len < line_size
    → length printed ≡ line_size
    → HoldsText size (take (size - 1) text) report
    → Leaves size
        (take (size - 1) (text ++ (if ltb 0 line_len then chunk else codes "(no response line)")))
        (if ltb 0 line_len
          then (memcpy printed 0 chunk >>= λ copied.
              store copied line_len 0 >>= λ ended. append_text report size (c_string ended))
          else append_text report size (codes "(no response line)"))
append_shown-Leaves size text chunk printed report line_len nt nc lc le l h =
    elim (Bool-cases (ltb 0 line_len)) [
      | inr nothing ↦
          rw nothing (append_text-Leaves size text (codes "(no response line)") report nt h)
      | inl something ↦
          let (ended, e, (rest, c, size_kept)) = copy_line-Leaves printed chunk line_len l lc le in
          let (copied, f, g) = >>=-eq-some (memcpy printed 0 chunk) _ e in
          let held : c_string ended ≡ chunk = rw c (c_string-append chunk rest nc) in
          rw (something, f, g, held) (append_text-Leaves size text chunk report nt h)
    ]

pub status_line-Nonzero :
    (host response : List ℕ) → Nonzero host → Nonzero response → Nonzero (status_line host response)
status_line-Nonzero host response nh nr =
    let (same, size) = line_length_lem response in
    let name = Nonzero-append host (codes ": ") nh (ground arith) in
    let part = Nonzero-take (line_length response) response nr in
    Nonzero-append (take (line_size - 1) (host ++ codes ": ")) _
      (Nonzero-take (line_size - 1) _ name)
      (Nonzero-append (shown (first_line response)) crlf
        (shown-Nonzero (first_line response) (rw (← same) part)) (ground arith))

-- A report that holds a text, cut to what its array has room for, then holds the text with the
-- line of the response behind it, again cut to that room and with a NUL: the host, cut with its
-- colon to 255 characters, the first line of the response, cut to 120, or a remark where that is
-- empty, and CR LF. The text, the host and the response have no NUL, and the array for the line
-- has 256 cells.
pub append_status_line-Leaves :
    (size : ℕ) (text host response line report : List ℕ)
    → Nonzero text
    → Nonzero host
    → Nonzero response
    → length line ≡ line_size
    → HoldsText size (take (size - 1) text) report
    → Leaves size
        (take (size - 1) (text ++ status_line host response))
        (append_status_line report size host response line)
unfolding append_status_line
append_status_line-Leaves size text host response line report nt nh nr l h =
    let name = take (line_size - 1) (host ++ codes ": ") in
    let nn = Nonzero-take (line_size - 1) _ (Nonzero-append host (codes ": ") nh (ground arith)) in
    let (printed, e, (rest, c, lp)) = print_line-Leaves line (host ++ codes ": ") l in
    let named : c_string printed ≡ name = rw c (c_string-append name rest nn) in
    let (same, size_shown) = line_length_lem response in
    let line_len = line_length response in
    let chunk = take 120 (first_line response) in
    let nc : Nonzero chunk = rw (← same) (Nonzero-take line_len response nr) in
    let small : line_len < line_size =
      omega (arith, size_shown, length-take 120 (first_line response)) in
    let remark = shown (first_line response) in
    let nsh : Nonzero remark = shown-Nonzero (first_line response) nc in
    let is_remark : remark ≡ (if ltb 0 line_len then chunk else codes "(no response line)") =
      rw (← size_shown) (shown_lem (first_line response)) in
    let nt1 = Nonzero-append text name nt nn in
    let regroup : ((text ++ name) ++ remark) ++ crlf ≡ text ++ (name ++ (remark ++ crlf)) =
      append_assoc (text ++ name) remark crlf ∙ append_assoc text name (remark ++ crlf) in
    rw (append_status_line, e, named, same, ← regroup)
      (Leaves-bind size _ _ _ _ (append_text-Leaves size text name report nt h) λ r1 h1.
        Leaves-bind size _ _ _ _
          (append_shown-Leaves size (text ++ name) chunk printed r1 line_len nt1 nc size_shown small
            lp h1)
          λ r2 h2.
            append_text-Leaves size ((text ++ name) ++ remark) crlf r2
              (Nonzero-append (text ++ name) remark nt1 nsh) (rw is_remark h2))
