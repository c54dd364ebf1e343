-- ===== src/CertStore/Anchor.antt =====
-- A trust anchor from a certificate: `wm_cert_store_append_dn` and `wm_build_anchor_from_der` of
-- BearTLS/wm_cert_store.c.
use bear_tls.Base.{
  ℕ, ◌+◌, ◌%◌, ◌^◌, ◌==◌, ◌||◌, ◌>>=◌, Bool, true, false, not, Option, none, some, List, [], ◌∷◌,
  if◌then◌else◌, ltb, length, memcpy, replicate,
}

abbrev pub max_dn_len : ℕ
max_dn_len = 512

abbrev pub max_rsa_n_len : ℕ
max_rsa_n_len = 512

abbrev pub max_rsa_e_len : ℕ
max_rsa_e_len = 8

abbrev pub max_ec_q_len : ℕ
max_ec_q_len = 133

-- `wm_dn_sink`, whose `cap` is the size of the array `buf`.
pub record DnSink : Type 0 where
  pub buf : List ℕ
  pub cap : ℕ
  pub len : ℕ
  pub overflow : Bool

-- The sum of the sizes wraps at 32 bits; `none` is a memory fault.
unfoldable pub append_dn : DnSink → List ℕ → Option DnSink
append_dn sink chunk =
    if sink.overflow || ltb sink.cap ((sink.len + length chunk) % 2 ^ 32)
    then some (record sink { overflow = true })
    else (memcpy sink.buf sink.len chunk >>= λ buf.
        some (record sink { buf = buf; len = (sink.len + length chunk) % 2 ^ 32 }))

-- The decoder's calls of the callback, in order.
unfoldable pub append_chunks : DnSink → List (List ℕ) → Option DnSink
append_chunks sink [] = some sink
append_chunks sink (chunk ∷ chunks) = append_dn sink chunk >>= λ sink'. append_chunks sink' chunks

-- `br_x509_pkey`: the parts of both kinds of keys, of which `key_type` says which are meant.
pub record Pkey : Type 0 where
  pub key_type : ℕ
  pub n : List ℕ
  pub e : List ℕ
  pub curve : ℕ
  pub q : List ℕ

abbrev pub keytype_rsa : ℕ
keytype_rsa = 1

abbrev pub keytype_ec : ℕ
keytype_ec = 2

-- What the certificate decoder of the TLS library tells of a certificate that was pushed whole:
-- the pieces of the subject's name, the error, the key and whether it is a CA.
pub record Decoder : Type 0 where
  pub dn_chunks : List ℕ → List (List ℕ)
  pub last_error : List ℕ → ℕ
  pub get_pkey : List ℕ → Option Pkey
  pub is_ca : List ℕ → Bool

-- `wm_anchor_storage`
pub record AnchorStorage : Type 0 where
  pub dn : List ℕ
  pub rsa_n : List ℕ
  pub rsa_e : List ℕ
  pub ec_q : List ℕ

-- `br_x509_trust_anchor`; its pointers go to the storage with the same index, so only the lengths
-- are here.
pub record TrustAnchor : Type 0 where
  pub dn_len : ℕ
  pub flags : ℕ
  pub key_type : ℕ
  pub nlen : ℕ
  pub elen : ℕ
  pub curve : ℕ
  pub qlen : ℕ

-- An entry of the two tables.
pub record Slot : Type 0 where
  pub anchor : TrustAnchor
  pub storage : AnchorStorage

abbrev pub zero_storage : AnchorStorage
zero_storage = record {
  dn = replicate max_dn_len 0;
  rsa_n = replicate max_rsa_n_len 0;
  rsa_e = replicate max_rsa_e_len 0;
  ec_q = replicate max_ec_q_len 0;
}

abbrev pub zero_anchor : TrustAnchor
zero_anchor = record {
  dn_len = 0;
  flags = 0;
  key_type = 0;
  nlen = 0;
  elen = 0;
  curve = 0;
  qlen = 0;
}

abbrev pub zero_slot : Slot
zero_slot = record { anchor = zero_anchor; storage = zero_storage }

-- The sink with which the decoding begins.
abbrev pub fresh_sink : DnSink
fresh_sink = record { buf = replicate max_dn_len 0; cap = max_dn_len; len = 0; overflow = false }

-- `BR_X509_TA_CA`
abbrev pub ta_ca : ℕ
ta_ca = 1

-- The return value and the entry.
abbrev pub Built : Type 0
Built = Bool × Slot

-- The entry with the name, the flags and the kind of the key.
abbrev pub named_slot : DnSink → ℕ → Slot
named_slot sink key_type = record {
  anchor = record zero_anchor { dn_len = sink.len; flags = ta_ca; key_type = key_type };
  storage = record zero_storage { dn = sink.buf };
}

unfoldable pub build_rsa : Slot → Pkey → Option Built
build_rsa s key =
    if ltb max_rsa_n_len (length key.n) || ltb max_rsa_e_len (length key.e)
    then some (false, s)
    else (memcpy s.storage.rsa_n 0 key.n >>= λ n. memcpy s.storage.rsa_e 0 key.e >>= λ e. some (
      true,
      record {
        anchor = record (s.anchor) { nlen = length key.n; elen = length key.e };
        storage = record (s.storage) { rsa_n = n; rsa_e = e };
      },
    ))

unfoldable pub build_ec : Slot → Pkey → Option Built
build_ec s key =
    if ltb max_ec_q_len (length key.q)
    then some (false, s)
    else (memcpy s.storage.ec_q 0 key.q >>= λ q. some (
      true,
      record {
        anchor = record (s.anchor) { curve = key.curve; qlen = length key.q };
        storage = record (s.storage) { ec_q = q };
      },
    ))

-- From a decoding without an error and a sink without an overflow on.
unfoldable pub build_key : DnSink → Bool → Option Pkey → Option Built
build_key sink ca none =
    some (false, record zero_slot { storage = record zero_storage { dn = sink.buf } })
build_key sink ca (some key) =
    if not ca
    then some (false, record zero_slot { storage = record zero_storage { dn = sink.buf } })
    else if key.key_type == keytype_rsa
    then build_rsa (named_slot sink key.key_type) key
    else if key.key_type == keytype_ec
    then build_ec (named_slot sink key.key_type) key
    else some (false, named_slot sink key.key_type)

unfoldable pub build_anchor_from_der : Decoder → List ℕ → Option Built
build_anchor_from_der d der = append_chunks fresh_sink (d.dn_chunks der) >>= λ sink.
    if not (d.last_error der == 0) || sink.overflow
    then some (false, record zero_slot { storage = record zero_storage { dn = sink.buf } })
    else build_key sink (d.is_ca der) (d.get_pkey der)
