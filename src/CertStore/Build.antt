-- ===== src/CertStore/Build.antt =====
-- What `wm_build_anchor_from_der` (BearTLS/wm_cert_store.c) leaves in an entry of the store.
use bear_tls.Base.{
  ℕ, ◌+◌, ◌≤◌, ◌≡◌, refl, ◌∙◌, ◌==◌, ◌||◌, Bool, true, false, not, Bool-cases, Option-cases, Option,
  some, List, [], ◌++◌, arith, ltb, ltb→le, length, take, drop, ==_iff, inl, inr, ◌⊎◌, All, concat,
  memcpy, memcpy_total, length-memcpy, length-replicate, take-append_left,
}
use bear_tls.CertStore.Anchor.{
  DnSink, fresh_sink, Decoder, Pkey, Slot, Built, build_rsa, build_ec, build_key,
  build_anchor_from_der, named_slot, max_dn_len, max_rsa_n_len, max_rsa_e_len, max_ec_q_len,
  keytype_rsa, keytype_ec, ta_ca, zero_slot, zero_storage,
}
use bear_tls.CertStore.Name.{Holds, Addressable, append_chunks_lem}

-- The arrays of an entry have the sizes that the source declares.
abbrev pub Sized : Slot → Type 0
Sized s =
    (length s.storage.dn ≡ max_dn_len)
    × (length s.storage.rsa_n ≡ max_rsa_n_len)
    × (length s.storage.rsa_e ≡ max_rsa_e_len)
    × (length s.storage.ec_q ≡ max_ec_q_len)

-- The anchor names `text`, as the name of a CA.
abbrev pub Names : List ℕ → Slot → Type 0
Names text s =
    (s.anchor.dn_len ≡ length text)
    × (take s.anchor.dn_len s.storage.dn ≡ text)
    × (s.anchor.flags ≡ ta_ca)

-- The anchor has the parts of `key`.
abbrev pub HasKey : Pkey → Slot → Type 0
HasKey key s =
    (s.anchor.key_type ≡ key.key_type)
    × (((key.key_type ≡ keytype_rsa)
          × (take s.anchor.nlen s.storage.rsa_n ≡ key.n)
          × (take s.anchor.elen s.storage.rsa_e ≡ key.e))
        ⊎ ((key.key_type ≡ keytype_ec)
            × (s.anchor.curve ≡ key.curve)
            × (take s.anchor.qlen s.storage.ec_q ≡ key.q)))

-- A copy to the front of an array that has room.
copied_front :
    (buf src : List ℕ)
    → length src ≤ length buf
    → (out : List ℕ) × (memcpy buf 0 src ≡ some out)
      × (length out ≡ length buf)
      × (take (length src) out ≡ src)
copied_front buf src fits = (
  src ++ drop (0 + length src) buf,
  memcpy_total buf 0 src (omega arith),
  length-memcpy buf 0 src (omega arith),
  take-append_left src (drop (0 + length src) buf) (length src) refl,
)

-- What comes of an entry whose name is there: it has the key, or the call gives it up.
abbrev Keyed : List ℕ → Pkey → Option Built → Type 0
Keyed text key o =
    (b : Built) × (o ≡ some b)
    × Sized b.1
    × ((b.0 ≡ false) ⊎ ((b.0 ≡ true) × Names text b.1 × HasKey key b.1))

build_rsa-Keyed :
    (text : List ℕ) (key : Pkey) (s : Slot)
    → Sized s
    → Names text s
    → s.anchor.key_type ≡ key.key_type
    → key.key_type ≡ keytype_rsa
    → Keyed text key (build_rsa s key)
unfolding build_rsa
build_rsa-Keyed text key s sized names kind rsa =
    elim (Bool-cases (ltb max_rsa_n_len (length key.n) || ltb max_rsa_e_len (length key.e))) [
      | inl long ↦ ((false, s), rw (long, build_rsa), sized, inl refl)
      | inr fit ↦
          let fits : (length key.n ≤ max_rsa_n_len) × (length key.e ≤ max_rsa_e_len) =
            ground arith in
          let (n, en, ln, tn) = copied_front s.storage.rsa_n key.n (omega (arith, sized, fits)) in
          let (e, ee, le, te) = copied_front s.storage.rsa_e key.e (omega (arith, sized, fits)) in
          (
            (
              true,
              record {
                anchor = record (s.anchor) { nlen = length key.n; elen = length key.e };
                storage = record (s.storage) { rsa_n = n; rsa_e = e };
              },
            ),
            rw (fit, build_rsa, en, ee) refl,
            (sized.0, ln ∙ sized.1, le ∙ sized.2, sized.3),
            inr (refl, names, (kind, inl (rsa, tn, te))),
          )
    ]

build_ec-Keyed :
    (text : List ℕ) (key : Pkey) (s : Slot)
    → Sized s
    → Names text s
    → s.anchor.key_type ≡ key.key_type
    → key.key_type ≡ keytype_ec
    → Keyed text key (build_ec s key)
unfolding build_ec
build_ec-Keyed text key s sized names kind ec =
    elim (Bool-cases (ltb max_ec_q_len (length key.q))) [
      | inl long ↦ ((false, s), rw (long, build_ec), sized, inl refl)
      | inr fit ↦
          let (q, eq, lq, tq) =
            copied_front s.storage.ec_q key.q (omega (arith, sized, ltb→le _ _ fit)) in
          (
            (
              true,
              record {
                anchor = record (s.anchor) { curve = key.curve; qlen = length key.q };
                storage = record (s.storage) { ec_q = q };
              },
            ),
            rw (fit, build_ec, eq) refl,
            (sized.0, sized.1, sized.2, lq ∙ sized.3),
            inr (refl, names, (kind, inr (ec, refl, tq))),
          )
    ]

named-Sized :
    (sink : DnSink) (kind : ℕ) → length sink.buf ≡ max_dn_len → Sized (named_slot sink kind)
named-Sized sink kind l = (
  l,
  length-replicate {A = ℕ} max_rsa_n_len 0,
  length-replicate {A = ℕ} max_rsa_e_len 0,
  length-replicate {A = ℕ} max_ec_q_len 0,
)

-- The key of a certificate that was decoded, with a name that fits.
build_key-Keyed :
    (text : List ℕ) (sink : DnSink) (ca : Bool) (key : Pkey)
    → Holds text sink
    → (b : Built) × (build_key sink ca (some key) ≡ some b)
      × Sized b.1
      × ((b.0 ≡ false) ⊎ ((ca ≡ true) × Names text b.1 × HasKey key b.1))
unfolding build_key
build_key-Keyed text sink false key holds = (_, refl, named-Sized sink 0 holds.0, inl refl)
build_key-Keyed text sink true key holds =
    let sized = named-Sized sink key.key_type holds.0 in
    let names : Names text (named_slot sink key.key_type) =
      (holds.2, rw (holds.2) (holds.4), refl) in
    elim (Bool-cases (key.key_type == keytype_rsa)) [
      | inl rsa ↦
          let (b, e, z, how) =
            build_rsa-Keyed text key (named_slot sink key.key_type) sized names refl
              ((==_iff _ _).0 rsa) in
          (
            b,
            rw (rsa, build_key) e,
            z,
            elim how [ inl bad ↦ inl bad | inr (good, n, k) ↦ inr (refl, n, k) ],
          )
      | inr not_rsa ↦ elim (Bool-cases (key.key_type == keytype_ec)) [
        | inl ec ↦
            let (b, e, z, how) =
              build_ec-Keyed text key (named_slot sink key.key_type) sized names refl
                ((==_iff _ _).0 ec) in
            (
              b,
              rw (not_rsa, ec, build_key) e,
              z,
              elim how [ inl bad ↦ inl bad | inr (good, n, k) ↦ inr (refl, n, k) ],
            )
        | inr not_ec ↦ (
          (false, named_slot sink key.key_type),
          rw (not_rsa, not_ec, build_key) refl,
          sized,
          inl refl,
        )
      ]
    ]

fresh-Holds : Holds [] fresh_sink
fresh-Holds = (length-replicate {A = ℕ} max_dn_len 0, refl, refl, omega arith, refl)

-- The call returns, with the arrays of the entry as large as before. If it returns 1, then the
-- certificate was decoded without an error, is one of a CA, and the entry has its whole name and
-- its key. The pieces of the name are such that their length plus 512 does not pass 32 bits.
pub build_anchor_lem :
    (d : Decoder) (der : List ℕ)
    → All Addressable (d.dn_chunks der)
    → (b : Built) × (build_anchor_from_der d der ≡ some b)
      × Sized b.1
      × ((b.0 ≡ false)
          ⊎ ((key : Pkey) × (d.get_pkey der ≡ some key)
              × (d.last_error der ≡ 0)
              × (d.is_ca der ≡ true)
              × Names (concat (d.dn_chunks der)) b.1
              × HasKey key b.1))
unfolding build_anchor_from_der build_key
build_anchor_lem d der small =
    let (sink, e, how) = append_chunks_lem (d.dn_chunks der) fresh_sink [] fresh-Holds refl small in
    let size : length sink.buf ≡ max_dn_len = elim how [
      | inl (calm, holds) ↦ holds.0
      | inr (over, l, long) ↦ l
    ] in
    elim (Bool-cases (not (d.last_error der == 0) || sink.overflow)) [
      | inl bad ↦ (
        (false, record zero_slot { storage = record zero_storage { dn = sink.buf } }),
        rw (build_anchor_from_der, e, bad) refl,
        named-Sized sink 0 size,
        inl refl,
      )
      | inr good ↦ elim how [
        | inr (over, l, long) ↦ absurd (ground arith)
        | inl (calm, holds) ↦ elim (Option-cases (d.get_pkey der)) [
          | inl no_key ↦ (
            (false, record zero_slot { storage = record zero_storage { dn = sink.buf } }),
            rw (build_anchor_from_der, e, good, no_key, build_key) refl,
            named-Sized sink 0 size,
            inl refl,
          )
          | inr (key, has_key) ↦
              let (b, f, z, keyed) =
                build_key-Keyed (concat (d.dn_chunks der)) sink (d.is_ca der) key holds in
              let fine : d.last_error der ≡ 0 = ground arith in
              (
                b,
                rw (build_anchor_from_der, e, good, has_key) f,
                z,
                elim keyed [
                  | inl failed ↦ inl failed
                  | inr (ca, n, k) ↦ inr (key, has_key, fine, ca, n, k)
                ],
              )
        ]
      ]
    ]
