-- ===== src/CertStore/Name.antt =====
-- The name and the key of a trust anchor (BearTLS/wm_cert_store.c): what `append_dn` collects and
-- what `build_anchor_from_der` stores, in arrays of a fixed size.
use bear_tls.Base.{
  ℕ, ◌+◌, ◌%◌, ◌^◌, ◌≤◌, ◌<◌, ◌≡◌, refl, sym, ap, ◌∙◌, ◌||◌, true, false, Bool-cases, some, List,
  [], ◌∷◌, ◌++◌, append-nil, append_assoc, arith, ltb, ltb→lt, ltb→le, le→ltb, length, take, drop,
  length-append, inl, inr, ◌⊎◌, All, concat, memcpy, memcpy_total, length-memcpy, take-append_left,
}
use bear_tls.CertStore.Anchor.{DnSink, append_dn, append_chunks, max_dn_len}

-- The sink holds `text` so far, in an array of 512 cells.
abbrev pub Holds : List ℕ → DnSink → Type 0
Holds text sink =
    (length sink.buf ≡ max_dn_len)
    × (sink.cap ≡ max_dn_len)
    × (sink.len ≡ length text)
    × (length text ≤ max_dn_len)
    × (take (length text) sink.buf ≡ text)

-- A piece is an object of a 32-bit address space.
abbrev pub Addressable : List ℕ → Type 0
Addressable chunk = length chunk + max_dn_len < 2 ^ 32

take-memcpy :
    (buf src : List ℕ) (text : List ℕ)
    → take (length text) buf ≡ text
    → length text + length src ≤ length buf
    → take
        (length text + length src)
        (take (length text) buf ++ (src ++ drop (length text + length src) buf))
      ≡ text ++ src
take-memcpy buf src text holds fits = rw holds (
    ap (take (length text + length src))
      (sym (append_assoc text src (drop (length text + length src) buf)))
    ∙ take-append_left (text ++ src) (drop (length text + length src) buf) _
        (sym (length-append text src)))

append_dn_over :
    (sink : DnSink) (text chunk : List ℕ)
    → Holds text sink
    → Addressable chunk
    → max_dn_len < length text + length chunk
    → append_dn sink chunk ≡ some (record sink { overflow = true })
unfolding append_dn
append_dn_over sink text chunk (lb, cp, len, fits, holds) small over =
    let sum : (sink.len + length chunk) % 2 ^ 32 ≡ length text + length chunk = omega arith in
    let full : ltb sink.cap (length text + length chunk) ≡ true = ground arith in
    ground (arith, full, sum)

append_dn_fits :
    (sink : DnSink) (text chunk : List ℕ)
    → Holds text sink
    → sink.overflow ≡ false
    → length text + length chunk ≤ max_dn_len
    → (s : DnSink) × (append_dn sink chunk ≡ some s)
      × (s.overflow ≡ false)
      × Holds (text ++ chunk) s
unfolding append_dn
append_dn_fits sink text chunk (lb, cp, len, fits, holds) calm room =
    let sum : (sink.len + length chunk) % 2 ^ 32 ≡ length text + length chunk = omega arith in
    let clear : (sink.overflow || ltb sink.cap ((sink.len + length chunk) % 2 ^ 32)) ≡ false =
      rw calm (rw (sum, cp) (le→ltb _ _ room)) in
    let total : memcpy sink.buf sink.len chunk
        ≡ some
            (take (length text) sink.buf ++ (chunk ++ drop (length text + length chunk) sink.buf)) =
      rw len (memcpy_total sink.buf (length text) chunk (omega (arith, lb))) in
    let l = length-append text chunk in
    (
      _,
      rw (clear, append_dn, total) refl,
      calm,
      (
        length-memcpy sink.buf (length text) chunk (omega (arith, lb)) ∙ lb,
        cp,
        sum ∙ sym l,
        omega (arith, l),
        rw l (take-memcpy sink.buf chunk text holds (omega (arith, lb))),
      ),
    )

append_chunks_over :
    (chunks : List (List ℕ)) (sink : DnSink)
    → sink.overflow ≡ true
    → (s : DnSink) × (append_chunks sink chunks ≡ some s)
      × (s.overflow ≡ true)
      × (length s.buf ≡ length sink.buf)
unfolding append_chunks append_dn
append_chunks_over [] sink over = (sink, refl, over, refl)
append_chunks_over (chunk ∷ chunks) sink over =
    let (s, e, o, l) = append_chunks_over chunks (record sink { overflow = true }) refl in
    (s, rw (over, append_chunks, append_dn) e, o, l)

-- Pieces that fit together are all kept, and others leave the sink with an overflow.
pub append_chunks_lem :
    (chunks : List (List ℕ)) (sink : DnSink) (text : List ℕ)
    → Holds text sink
    → sink.overflow ≡ false
    → All Addressable chunks
    → (s : DnSink) × (append_chunks sink chunks ≡ some s)
      × (((s.overflow ≡ false) × Holds (text ++ concat chunks) s)
          ⊎ ((s.overflow ≡ true)
              × (length s.buf ≡ max_dn_len)
              × (max_dn_len < length (text ++ concat chunks))))
unfolding append_chunks
append_chunks_lem [] sink text holds calm small =
    (sink, refl, inl (calm, rw (append-nil text) holds))
append_chunks_lem (chunk ∷ chunks) sink text holds calm (small, smalls) =
    elim (Bool-cases (ltb max_dn_len (length text + length chunk))) [
      | inl over ↦
          let (s, e, o, l) = append_chunks_over chunks (record sink { overflow = true }) refl in
          (
            s,
            rw (append_dn_over sink text chunk holds small (ltb→lt _ _ over)) e,
            inr (
              o,
              l ∙ holds.0,
              omega (
                arith,
                ltb→lt _ _ over,
                length-append text (chunk ++ concat chunks),
                length-append chunk (concat chunks),
              ),
            ),
          )
      | inr room ↦
          let (mid, e, mid_calm, mid_holds) =
            append_dn_fits sink text chunk holds calm (ltb→le _ _ room) in
          let (s, f, done) =
            append_chunks_lem chunks mid (text ++ chunk) mid_holds mid_calm smalls in
          (s, rw e f, rw (append_assoc text chunk (concat chunks)) at done)
    ]
