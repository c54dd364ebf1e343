-- ===== src/Installer/Copy.antt =====
-- Copying and appending texts in the arrays of the setup library, `bt_copy_string` and
-- `bt_append_string` of BearTLS_CAB/BearTLS_CAB.cpp.
use bear_tls.Base.{
  ℕ, suc, ◌+◌, ◌≤◌, ◌<◌, ◌≡◌, refl, sym, ap, ◌∙◌, ◌==◌, ◌&&◌, ◌>>=◌, true, false, not, Option, some,
  List, [], ◌∷◌, ◌++◌, arith, Bool-cases, inl, inr, ltb, leb, length, Nonzero, append-nil, store,
  store-append, length-append, append_assoc,
}
use bear_tls.CertStore.Paths.{max_path, Filled}
use bear_tls.CertStore.Locate.{Cells, Gives}
use bear_tls.Installer.{put_loop, copy_string, end_loop, append_string, make_path}

put_loop-stop :
    (dest src : List ℕ) (dest_count len i c : ℕ)
    → ltb (len + i + 1) dest_count && not (c == 0) ≡ false
    → put_loop dest dest_count len (c ∷ src) i
      ≡ (store dest (len + i) 0 >>= λ closed. some (c == 0, closed))
unfolding put_loop
put_loop-stop dest src dest_count len i c stop = rw (stop, put_loop) refl

put_loop-go :
    (dest src : List ℕ) (dest_count len i c : ℕ)
    → ltb (len + i + 1) dest_count && not (c == 0) ≡ true
    → put_loop dest dest_count len (c ∷ src) i
      ≡ (store dest (len + i) c >>= λ written. put_loop written dest_count len src (i + 1))
unfolding put_loop
put_loop-go dest src dest_count len i c go = rw (go, put_loop) refl

-- A write at the end of the first part of an array.
store-at :
    (pre old : List ℕ) (o c at : ℕ)
    → length pre ≡ at
    → store (pre ++ (o ∷ old)) at c ≡ some (pre ++ (c ∷ old))
store-at pre old o c at e = store-append pre old o c at (sym e)

same_size :
    (pre old : List ℕ) (o c n : ℕ) → length (pre ++ (o ∷ old)) ≡ n → length (pre ++ (c ∷ old)) ≡ n
same_size pre old o c n l = length-append pre (c ∷ old) ∙ sym (length-append pre (o ∷ old)) ∙ l

put_loop-Gives :
    (old pre text rest : List ℕ) (len i : ℕ)
    → Nonzero text
    → length pre ≡ len + i
    → length (pre ++ old) ≡ max_path
    → length pre + length text + 1 ≤ max_path
    → Gives (pre ++ text) (put_loop (pre ++ old) max_path len (text ++ (0 ∷ rest)) i)
put_loop-Gives [] pre text rest len i n at l room =
    absurd (omega (arith, length-append pre [], l, room))
put_loop-Gives (o ∷ old) pre [] rest len i n at l room =
    let stop : ltb (len + i + 1) max_path && not (0 == 0) ≡ false = ground arith in
    (
      pre ++ (0 ∷ old),
      rw
          (
            put_loop-stop (pre ++ (o ∷ old)) rest max_path len i 0 stop,
            store-at pre old o 0 (len + i) at,
          )
          refl,
      (old, rw (append-nil pre) refl, same_size pre old o 0 max_path l),
    )
put_loop-Gives (o ∷ old) pre (c ∷ text) rest len i (pos, n) at l room =
    let go : ltb (len + i + 1) max_path && not (c == 0) ≡ true = ground (arith, at, room, pos) in
    let one = length-append pre (c ∷ []) in
    let s = append_assoc pre (c ∷ []) old in
    let t = append_assoc pre (c ∷ []) text in
    let size = rw (← s) at (same_size pre old o c max_path l) in
    rw
      (
        put_loop-go (pre ++ (o ∷ old)) (text ++ (0 ∷ rest)) max_path len i c go,
        store-at pre old o c (len + i) at,
        ← s,
        ← t,
      )
      (put_loop-Gives old (pre ++ (c ∷ [])) text rest len (i + 1) n (omega (arith, one, at)) size
        (omega (arith, one, room)))

-- Where the text does not fit, its beginning is written and the call fails.
abbrev pub Refuses : Option Filled → Type 0
Refuses o = (cells : List ℕ) × (o ≡ some (false, cells))

put_loop-Refuses :
    (old pre text rest : List ℕ) (len i : ℕ)
    → Nonzero text
    → length pre ≡ len + i
    → length (pre ++ old) ≡ max_path
    → length pre < max_path
    → max_path < length pre + length text + 1
    → Refuses (put_loop (pre ++ old) max_path len (text ++ (0 ∷ rest)) i)
put_loop-Refuses [] pre text rest len i n at l room over =
    absurd (omega (arith, length-append pre [], l, room))
put_loop-Refuses (o ∷ old) pre [] rest len i n at l room over = absurd (omega arith)
put_loop-Refuses (o ∷ old) pre (c ∷ text) rest len i (pos, n) at l room over =
    let one = length-append pre (c ∷ []) in
    let s = append_assoc pre (c ∷ []) old in
    let size = rw (← s) at (same_size pre old o c max_path l) in
    let other : (c == 0) ≡ false = ground arith in
    elim (Bool-cases (ltb (len + i + 1) max_path && not (c == 0))) [
      | inl go ↦
          rw
            (
              put_loop-go (pre ++ (o ∷ old)) (text ++ (0 ∷ rest)) max_path len i c go,
              store-at pre old o c (len + i) at,
              ← s,
            )
            (put_loop-Refuses old (pre ++ (c ∷ [])) text rest len (i + 1) n (omega (arith, one, at))
              size (ground (arith, one, at, go, other)) (omega (arith, one, over)))
      | inr stop ↦ (
        pre ++ (0 ∷ old),
        rw
            (
              put_loop-stop (pre ++ (o ∷ old)) (text ++ (0 ∷ rest)) max_path len i c stop,
              store-at pre old o 0 (len + i) at,
              other,
            )
            refl,
      )
    ]

-- The end of a text in an array.
end_loop_lem :
    (text rest : List ℕ) (dest_count len : ℕ)
    → Nonzero text
    → len + length text < dest_count
    → end_loop (text ++ (0 ∷ rest)) dest_count len ≡ some (len + length text)
unfolding end_loop
end_loop_lem [] rest dest_count len n fits =
    let stop : ltb len dest_count && not (0 == 0) ≡ false = ground arith in
    let e : len + 0 ≡ len = omega arith in rw (e, stop, end_loop) refl
end_loop_lem (c ∷ text) rest dest_count len (pos, n) fits =
    let go : ltb len dest_count && not (c == 0) ≡ true = ground (arith, fits, pos) in
    let e : len + suc (length text) ≡ len + 1 + length text = omega arith in
    rw (e, go, end_loop) (end_loop_lem text rest dest_count (len + 1) n (omega arith))

append_string_lem :
    (dir cells src : List ℕ)
    → Nonzero dir
    → Cells dir cells
    → append_string cells max_path src ≡ put_loop cells max_path (length dir) src 0
unfolding append_string
append_string_lem dir cells src n (after, c, l) =
    let size = ap length c ∙ length-append dir (0 ∷ after) in
    let fits : length dir < max_path = omega (arith, size, l) in
    let stop : leb max_path (length dir) ≡ false = ground arith in
    let z : 0 + length dir ≡ length dir = omega arith in
    let last : end_loop cells max_path 0 ≡ some (length dir) =
      rw c (end_loop_lem dir after max_path 0 n (omega arith) ∙ ap some z) in
    rw (append_string, last, stop) refl

-- The two steps of a path: the directory is copied, and the suffix appended.
make_path-copied :
    (path dir rest suffix : List ℕ)
    → length path ≡ max_path
    → Nonzero dir
    → length dir + 1 ≤ max_path
    → (old : List ℕ) × (length (dir ++ old) ≡ max_path)
      × (make_path path (dir ++ (0 ∷ rest)) suffix
          ≡ put_loop (dir ++ old) max_path (length dir) (suffix ++ (0 ∷ [])) 0)
unfolding make_path copy_string
make_path-copied path dir rest suffix l n room =
    let (copied, e, (after, c, lc)) = put_loop-Gives path [] dir rest 0 0 n refl l (omega arith) in
    let held = append_string_lem dir copied (suffix ++ (0 ∷ [])) n (after, c, lc) in
    (0 ∷ after, sym (ap length c) ∙ lc, rw (make_path, e, held, c) refl)

-- Directory and suffix are written one after the other, when both and the NUL fit.
pub make_path-Gives :
    (path dir rest suffix : List ℕ)
    → length path ≡ max_path
    → Nonzero dir
    → Nonzero suffix
    → length dir + length suffix + 1 ≤ max_path
    → Gives (dir ++ suffix) (make_path path (dir ++ (0 ∷ rest)) suffix)
make_path-Gives path dir rest suffix l nd ns room =
    let (old, size, e) = make_path-copied path dir rest suffix l nd (omega arith) in
    rw e (put_loop-Gives old dir suffix [] (length dir) 0 ns (omega arith) size room)

pub make_path-Refuses :
    (path dir rest suffix : List ℕ)
    → length path ≡ max_path
    → Nonzero dir
    → Nonzero suffix
    → max_path < length dir + length suffix + 1
    → Refuses (make_path path (dir ++ (0 ∷ rest)) suffix)
unfolding make_path copy_string
make_path-Refuses path dir rest suffix l nd ns over =
    elim (Bool-cases (leb (length dir + 1) max_path)) [
      | inl fits ↦
          let room : length dir + 1 ≤ max_path = ground arith in
          let (old, size, e) = make_path-copied path dir rest suffix l nd room in
          rw e (
            put_loop-Refuses old dir suffix [] (length dir) 0 ns (omega arith) size (omega arith)
              over)
      | inr long ↦
          let more : max_path < 0 + length dir + 1 = ground arith in
          let (cells, e) = put_loop-Refuses path [] dir rest 0 0 nd refl l (omega arith) more in
          (cells, rw (make_path, e) refl)
    ]
