-- ===== src/CertStore/Load.antt =====
-- Filling the store: `wm_cert_store_alloc`, `wm_cert_store_load_pem_roots`, `wm_cert_store_init`,
-- `wm_cert_store_anchors` and `wm_cert_store_anchor_count` of BearTLS/wm_cert_store.c.
use bear_tls.Base.{
  ℕ, zero, suc, ◌+◌, ◌*◌, ◌==◌, ◌&&◌, ◌>>=◌, Bool, true, false, not, Option, none, some, List, [],
  ◌∷◌, if◌then◌else◌, ltb, length, take, drop, replicate, store, get_or, c_string,
}
use bear_tls.Base64.{decode_b64}
use bear_tls.CertStore.Paths.{max_path, get_roots_path}
use bear_tls.CertStore.Pem.{begin_marker, end_marker, find_text, count_pem_certs}
use bear_tls.CertStore.Anchor.{
  max_dn_len, max_rsa_n_len, max_rsa_e_len, max_ec_q_len, Decoder, Slot, zero_slot,
  build_anchor_from_der,
}
use bear_tls.CertStore.File.{System, World, freed, read_file}

-- `WM_CERT_DER_MAX_BYTES`
abbrev pub cert_der_max_bytes : ℕ
cert_der_max_bytes = 8192

abbrev pub builtin_root_count : ℕ
builtin_root_count = 9

abbrev pub extra_root_count : ℕ
extra_root_count = 14

-- `WM_PUBLIC_ROOT_COUNT`
abbrev pub public_root_count : ℕ
public_root_count = builtin_root_count + extra_root_count

-- `sizeof(wm_anchor_storage)`
abbrev pub storage_bytes : ℕ
storage_bytes = max_dn_len + max_rsa_n_len + max_rsa_e_len + max_ec_q_len

-- `g_trust_anchors` and `g_anchor_storage` are null together, or have the same number of entries.
pub record Store : Type 0 where
  pub slots : Option (List Slot)
  pub capacity : ℕ
  pub count : ℕ
  pub initialized : Bool

-- The state in which the library is loaded.
abbrev pub empty_store : Store
empty_store = record { slots = none; capacity = 0; count = 0; initialized = false }

-- The entries while they are filled, with `next_anchor` and `g_trust_anchor_count`.
pub record Table : Type 0 where
  pub slots : List Slot
  pub next : ℕ
  pub count : ℕ

-- A write to an entry; `none` is a memory fault.
unfoldable pub set_slot : List Slot → ℕ → Slot → Option (List Slot)
set_slot [] i s = none
set_slot (x ∷ slots) zero s = some (s ∷ slots)
set_slot (x ∷ slots) (suc i) s = set_slot slots i s >>= λ rest. some (x ∷ rest)

-- Building the next entry from a certificate, and counting it where it was built.
unfoldable pub add_root : Decoder → List ℕ → Table → Option (Bool × Table)
add_root d der t = build_anchor_from_der d der >>= λ built.
    set_slot t.slots t.next built.1 >>= λ slots.
    if built.0
    then some (true, record { slots = slots; next = t.next + 1; count = t.count + 1 })
    else some (false, record t { slots = slots })

-- `der_len > 0 && wm_build_anchor_from_der(...)`
unfoldable pub add_decoded : Decoder → List ℕ → Table → Option (Bool × Table)
add_decoded d der t = elim (length der == 0) [ true ↦ some (false, t) | false ↦ add_root d der t ]

-- The loop of `load_pem_roots` from `p` on, with `loaded`; `none` is also the end of the fuel.
unfoldable pub load_loop : ℕ → Decoder → ℕ → List ℕ → Table → ℕ → Option (ℕ × Table)
load_loop zero d capacity text t loaded = none
load_loop (suc fuel) d capacity text t loaded = elim (ltb t.next capacity) [
  | false ↦ some (loaded, t)
  | true ↦ elim (find_text text begin_marker) [
    | none ↦ some (loaded, t)
    | some i ↦
        let body = drop (i + length begin_marker) text in
        elim (find_text body end_marker) [
          | none ↦ some (loaded, t)
          | some j ↦ elim (add_decoded d (decode_b64 (take j body) cert_der_max_bytes) t) [
            | none ↦ none
            | some (added, t') ↦
                load_loop fuel d capacity (drop (j + length end_marker) body) t'
                  (if added then loaded + 1 else loaded)
          ]
        ]
  ]
]

-- The loops of `wm_cert_store_init` over a table of certificates.
unfoldable pub roots_loop : Decoder → ℕ → List (List ℕ) → Table → Option Table
roots_loop d capacity [] t = some t
roots_loop d capacity (der ∷ ders) t = elim (ltb t.next capacity) [
  | false ↦ some t
  | true ↦ elim (add_root d der t) [
    | none ↦ none
    | some (added, t') ↦ roots_loop d capacity ders t'
  ]
]

module _ (sys : System) where
  -- What a step leaves, with its return value.
  pub record Loaded : Type 0 where
    pub loaded : ℕ
    pub table : Table
    pub world : World sys

  -- From the file's text on, which is a block: every pass of the loop consumes some of the text, so
  -- that its length is enough fuel.
  unfoldable pub load_text : Decoder → ℕ → List ℕ → Table → World sys → Option Loaded
  load_text d capacity pem t w =
      let (got, state) = sys.heap_alloc w.state cert_der_max_bytes in
      if got
      then (load_loop (suc (length pem)) d capacity pem t 0 >>= λ r. some (record {
        loaded = r.0;
        table = r.1;
        world = freed sys (freed sys (record w { state = state; blocks = w.blocks + 1 }));
      }))
      else some (record { loaded = 0; table = t; world = freed sys (record w { state = state }) })

  -- `next_anchor` is not null.
  unfoldable pub load_pem_roots : Decoder → ℕ → List ℕ → Table → World sys → Option Loaded
  load_pem_roots d capacity path t w =
      let (text, w') = read_file sys path w in
      elim text [
        | none ↦ some (record { loaded = 0; table = t; world = w' })
        | some pem ↦ load_text d capacity pem t w'
      ]

  -- The return value, the entries and the world.
  unfoldable pub alloc : ℕ → World sys → Option (List Slot) × World sys
  alloc capacity w =
      let (got1, state1) = sys.heap_alloc w.state (capacity * sys.sizeof_trust_anchor) in
      let (got2, state2) = sys.heap_alloc state1 (capacity * storage_bytes) in
      let w2 : World sys = record w { state = state2 } in
      let one : World sys = record w { state = state2; blocks = w.blocks + 1 } in
      if capacity == 0
      then (none, w)
      else if got1 && got2
      then (some (replicate capacity zero_slot), record w { state = state2; blocks = w.blocks + 2 })
      else if got1
      then (none, freed sys one)
      else if got2
      then (none, freed sys one)
      else (none, w2)

  -- The return value of `wm_cert_store_init`, and what it leaves.
  pub record Initialized : Type 0 where
    pub ok : Bool
    pub store : Store
    pub world : World sys

  -- `external_count`, where `wm_bear_tls_get_roots_path` gave its return value and `roots_path`.
  unfoldable pub count_external : Bool → List ℕ → World sys → ℕ × World sys
  count_external false path w = (0, w)
  count_external true path w =
      let (text, w') = read_file sys (c_string path) w in
      elim text [ none ↦ (0, w') | some pem ↦ (count_pem_certs pem, freed sys w') ]

  -- The external roots, if there are some.
  unfoldable pub add_external : Decoder → ℕ → ℕ → List ℕ → Table → World sys → Option Loaded
  add_external d capacity external_count path t w =
      if ltb 0 external_count && not (get_or path 0 0 == 0)
      then load_pem_roots d capacity (c_string path) t w
      else some (record { loaded = 0; table = t; world = w })

  -- From the allocated entries on.
  unfoldable pub fill :
      Decoder
      → List (List ℕ)
      → List (List ℕ)
      → ℕ
      → ℕ
      → List ℕ
      → List Slot
      → World sys
      → Option Initialized
  fill d builtin extra capacity external_count path slots w =
      add_external d capacity external_count path (record { slots = slots; next = 0; count = 0 }) w
      >>= λ l. roots_loop d capacity builtin l.table >>= λ t1.
          roots_loop d capacity extra t1 >>= λ t2. some (record {
            ok = ltb 0 t2.count;
            store = record {
              slots = some t2.slots;
              capacity = capacity;
              count = t2.count;
              initialized = true;
            };
            world = l.world;
          })

  -- From the count of the external certificates on.
  unfoldable pub init_counted :
      Decoder → List (List ℕ) → List (List ℕ) → ℕ → List ℕ → Store → World sys → Option Initialized
  init_counted d builtin extra external_count path s w =
      let capacity = public_root_count + external_count in
      let (slots, w') = alloc capacity w in
      elim slots [
        | none ↦
            some
              (record { ok = false; store = record s { slots = none; capacity = 0 }; world = w' })
        | some entries ↦ fill d builtin extra capacity external_count path entries w'
      ]

  -- `builtin` and `extra` are the two tables of certificates, `stack` what `roots_path` holds
  -- before.
  unfoldable pub init :
      Decoder → List (List ℕ) → List (List ℕ) → List ℕ → Store → World sys → Option Initialized
  init d builtin extra stack s w =
      if s.initialized
      then some (record { ok = true; store = s; world = w })
      else (store stack 0 0 >>= λ cleared.
          get_roots_path (sys.get_module_file_name) cleared max_path >>= λ path.
          let (external_count, w') = count_external path.0 path.1 w in
          init_counted d builtin extra external_count path.1 s w')

  -- `wm_cert_store_anchors`
  unfoldable pub anchors :
      Decoder
      → List (List ℕ)
      → List (List ℕ)
      → List ℕ
      → Store
      → World sys
      → Option (Option (List Slot) × Store × World sys)
  anchors d builtin extra stack s w =
      if s.initialized
      then some (s.slots, s, w)
      else (init d builtin extra stack s w >>= λ r. some (r.store.slots, r.store, r.world))

  -- `wm_cert_store_anchor_count`
  unfoldable pub anchor_count :
      Decoder
      → List (List ℕ)
      → List (List ℕ)
      → List ℕ
      → Store
      → World sys
      → Option (ℕ × Store × World sys)
  anchor_count d builtin extra stack s w =
      if s.initialized
      then some (s.count, s, w)
      else (init d builtin extra stack s w >>= λ r. some (r.store.count, r.store, r.world))
