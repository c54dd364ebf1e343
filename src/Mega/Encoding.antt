-- ===== src/Mega/Encoding.antt =====
-- Multi-precision integers of BearTLS/wm_https.c: `wm_mega_mpi_read` reads back what stands in the
-- blob, and stays inside it.
use bear_tls.Base.{
  ℕ, zero, suc, ◌+◌, ◌/◌, ◌%◌, ◌^◌, ◌<◌, ◌≡◌, refl, ap, ◌∙◌, sym, some, List, [], ◌∷◌, ◌++◌,
  append_assoc, arith, length, length-append, get_or, drop, bit_or-shifted, take-append_left,
  drop-append_left, drop-drop, le→ltb,
}
use bear_tls.Mega.{mpi_bytes, mpi_read, read_key}

-- The integer of `bits` bits whose bytes are `value`, as the format writes it.
abbrev pub mpi_text : ℕ → List ℕ → List ℕ
mpi_text bits value = (bits / 256) ∷ (bits % 256) ∷ value

mpi_bytes_lem : (bits : ℕ) → bits < 65536 → mpi_bytes (bits / 256) (bits % 256) ≡ (bits + 7) / 8
mpi_bytes_lem bits h = rw (bit_or-shifted 8 (bits / 256) (bits % 256) (omega arith)) (omega arith)

get_or-append :
    (xs ys : List ℕ) (i j : ℕ) → i ≡ length xs + j → get_or (xs ++ ys) i 0 ≡ get_or ys j 0
get_or-append [] ys i j h = let e : i ≡ j = omega arith in rw e
get_or-append (x ∷ xs) ys zero j h = absurd (omega arith)
get_or-append (x ∷ xs) ys (suc i) j h = get_or-append xs ys i j (omega arith)

-- Behind any prefix and before any rest, an integer is read whole, and the position moves behind
-- it, in a blob that is not within 8 bytes of the whole address range.
pub mpi_read-mpi_text :
    (before value rest : List ℕ) (bits : ℕ)
    → bits < 65536
    → length value ≡ (bits + 7) / 8
    → length before + length value + length rest + 8 < 2 ^ 32
    → mpi_read (before ++ (mpi_text bits value ++ rest)) (length before)
      ≡ some (record { value = value; pos = length before + 2 + length value })
unfolding mpi_read
mpi_read-mpi_text before value rest bits hb hv fits =
    let blob = before ++ (mpi_text bits value ++ rest) in
    let n = length before in
    let size : length blob ≡ n + (2 + (length value + length rest)) =
      omega (arith, length-append before (mpi_text bits value ++ rest), length-append value rest) in
    let start : (n + 2) % 2 ^ 32 ≡ n + 2 = omega arith in
    let end : (n + 2 + length value) % 2 ^ 32 ≡ n + 2 + length value = omega arith in
    let hi = get_or-append before (mpi_text bits value ++ rest) n 0 (omega arith) in
    let lo = get_or-append before (mpi_text bits value ++ rest) (n + 1) 1 (omega arith) in
    let bytes : mpi_bytes (bits / 256) (bits % 256) ≡ length value =
      mpi_bytes_lem bits hb ∙ sym hv in
    let body : drop (n + 2) blob ≡ value ++ rest =
      sym (drop-drop 2 n blob) ∙ ap (drop 2) (drop-append_left before _ n refl) in
    rw
      (
        hi,
        lo,
        bytes,
        start,
        end,
        body,
        le→ltb (length blob) (n + 2) (omega arith),
        le→ltb (length blob) (n + 2 + length value) (omega arith),
        take-append_left value rest (length value) refl,
      )
      refl

pub mpi_read_at :
    (blob before value rest : List ℕ) (bits pos : ℕ)
    → blob ≡ before ++ (mpi_text bits value ++ rest)
    → pos ≡ length before
    → bits < 65536
    → length value ≡ (bits + 7) / 8
    → length before + length value + length rest + 8 < 2 ^ 32
    → mpi_read blob pos ≡ some (record { value = value; pos = pos + 2 + length value })
mpi_read_at blob before value rest bits pos eb ep hb hv fits =
    rw (eb, ep) (mpi_read-mpi_text before value rest bits hb hv fits)

-- A whole key blob: the four parts follow one another, and what stands behind them is ignored.
pub read_key-blob :
    (p q d u rest : List ℕ) (bp bq bd bu : ℕ)
    → bp < 65536
    → bq < 65536
    → bd < 65536
    → bu < 65536
    → length p ≡ (bp + 7) / 8
    → length q ≡ (bq + 7) / 8
    → length d ≡ (bd + 7) / 8
    → length u ≡ (bu + 7) / 8
    → length rest < 2 ^ 31
    → read_key (mpi_text bp p ++ (mpi_text bq q ++ (mpi_text bd d ++ (mpi_text bu u ++ rest))))
      ≡ some (record { mp = p; mq = q; md = d; mu = u })
unfolding read_key
read_key-blob p q d u rest bp bq bd bu hp hq hd hu lp lq ld lu hr =
    let tu = mpi_text bu u ++ rest in
    let td = mpi_text bd d ++ tu in
    let tq = mpi_text bq q ++ td in
    let blob = mpi_text bp p ++ tq in
    let bpq = mpi_text bp p ++ mpi_text bq q in
    let bpqd = bpq ++ mpi_text bd d in
    let lpq = length-append (mpi_text bp p) (mpi_text bq q) in
    let lpqd = length-append bpq (mpi_text bd d) in
    let ltu = length-append u rest in
    let ltd = length-append d tu in
    let ltq = length-append q td in
    rw
      (
        mpi_read_at blob [] p tq bp 0 refl refl hp lp (omega arith),
        mpi_read_at blob (mpi_text bp p) q td bq (0 + 2 + length p) refl (omega arith) hq lq
            (omega arith),
        mpi_read_at blob bpq d tu bd (0 + 2 + length p + 2 + length q)
            (sym (append_assoc (mpi_text bp p) (mpi_text bq q) td)) (omega arith) hd ld
            (omega arith),
        mpi_read_at blob bpqd u rest bu (0 + 2 + length p + 2 + length q + 2 + length d)
            (sym (
              append_assoc bpq (mpi_text bd d) tu
              ∙ append_assoc (mpi_text bp p) (mpi_text bq q) td))
            (omega arith) hu lu (omega arith),
      )
      refl
