-- ===== src/CertStore/Start.antt =====
-- `wm_cert_store_init` (BearTLS/wm_cert_store.c) as a whole: what it leaves in the store.
use bear_tls.Base.{
  some_inj, ℕ, suc, ◌+◌, ◌*◌, ◌≤◌, ◌≡◌, refl, ◌==◌, ◌&&◌, Bool, true, false, not, Bool-cases,
  Option-cases, none, some, List, arith, ltb, length, inl, inr, ◌⊎◌, All, length-replicate, store,
  get_or, c_string,
}
use bear_tls.CertStore.Paths.{max_path, get_roots_path}
use bear_tls.CertStore.Pem.{max_external_root_count}
use bear_tls.CertStore.Search.{count_pem_certs-le}
use bear_tls.CertStore.Anchor.{Decoder, Slot, zero_slot}
use bear_tls.CertStore.Name.{Addressable}
use bear_tls.CertStore.File.{System, World, freed, read_file}
use bear_tls.CertStore.Load.{
  Store, Table, Loaded, load_text, load_pem_roots, alloc, Initialized, count_external, add_external,
  fill, init_counted, init, public_root_count, cert_der_max_bytes, storage_bytes,
}
use bear_tls.CertStore.Filling.{Fits, roots_loop-Fits, load_loop-Fits}

module _ (d : Decoder) (small : (der : List ℕ) → All Addressable (d.dn_chunks der)) where
  module _ (sys : System) where
    load_text-Fits :
        (capacity : ℕ) (pem : List ℕ) (t : Table) (w : World sys)
        → Fits capacity t
        → (l : Loaded sys) × (load_text sys d capacity pem t w ≡ some l) × Fits capacity l.table
    unfolding load_text
    load_text-Fits capacity pem t w fits =
        let (got, state) = sys.heap_alloc w.state cert_der_max_bytes in
        let w' : World sys = record w { state = state } in
        elim (Bool-cases got) [
          | inr no_block ↦ (
            record { loaded = 0; table = t; world = freed sys w' },
            rw (no_block, load_text) refl,
            fits,
          )
          | inl block ↦
              let (n, t', e, f) =
                load_loop-Fits d small (suc (length pem)) capacity pem t 0 (omega arith) fits in
              (
                record {
                  loaded = n;
                  table = t';
                  world = freed sys (freed sys (record w { state = state; blocks = w.blocks + 1 }));
                },
                rw (block, load_text, e) refl,
                f,
              )
        ]

    load_pem_roots-Fits :
        (capacity : ℕ) (path : List ℕ) (t : Table) (w : World sys)
        → Fits capacity t
        → (l : Loaded sys) × (load_pem_roots sys d capacity path t w ≡ some l)
          × Fits capacity l.table
    unfolding load_pem_roots
    load_pem_roots-Fits capacity path t w fits =
        let (text, w') = read_file sys path w in
        elim (Option-cases text) [
          | inl no_file ↦ (
            record { loaded = 0; table = t; world = w' },
            rw (no_file, load_pem_roots) refl,
            fits,
          )
          | inr (pem, there) ↦
              let (l, e, f) = load_text-Fits capacity pem t w' fits in
              (l, rw (there, load_pem_roots) e, f)
        ]

    add_external-Fits :
        (capacity count : ℕ) (path : List ℕ) (t : Table) (w : World sys)
        → Fits capacity t
        → (l : Loaded sys) × (add_external sys d capacity count path t w ≡ some l)
          × Fits capacity l.table
    unfolding add_external
    add_external-Fits capacity count path t w fits =
        elim (Bool-cases (ltb 0 count && not (get_or path 0 0 == 0))) [
          | inr skipped ↦
              (record { loaded = 0; table = t; world = w }, rw (add_external, skipped) refl, fits)
          | inl needed ↦
              let (l, e, f) = load_pem_roots-Fits capacity (c_string path) t w fits in
              (l, rw (add_external, needed) e, f)
        ]

    length-alloc :
        (capacity : ℕ) (w : World sys) (slots : List Slot)
        → (alloc sys capacity w).0 ≡ some slots
        → length slots ≡ capacity
    unfolding alloc
    length-alloc capacity w slots e =
        let (got1, state1) = sys.heap_alloc w.state (capacity * sys.sizeof_trust_anchor) in
        let (got2, state2) = sys.heap_alloc state1 (capacity * storage_bytes) in
        elim (Bool-cases (capacity == 0)) [
          | inl nothing ↦ cc (rw (nothing, alloc) at e)
          | inr wanted ↦ elim (Bool-cases (got1 && got2)) [
            | inl both ↦
                let same = rw (wanted, both, alloc) at e in
                rw (← some_inj same) (length-replicate {A = Slot} capacity zero_slot)
            | inr not_both ↦ elim (Bool-cases got1) [
              | inl first ↦ cc (rw (wanted, not_both, first, alloc) at e)
              | inr no_first ↦ elim (Bool-cases got2) [
                | inl second ↦ cc (rw (wanted, not_both, no_first, second, alloc) at e)
                | inr no_second ↦ cc (rw (wanted, not_both, no_first, no_second, alloc) at e)
              ]
            ]
          ]
        ]

    count_external-le :
        (got : Bool) (path : List ℕ) (w : World sys)
        → (count_external sys got path w).0 ≤ max_external_root_count
    unfolding count_external
    count_external-le false path w = omega arith
    count_external-le true path w =
        let (text, w') = read_file sys (c_string path) w in
        elim (Option-cases text) [
          | inl no_file ↦ rw (no_file, count_external) (omega arith)
          | inr (pem, there) ↦ rw (there, count_external) (count_pem_certs-le pem)
        ]

    -- The store whose tables were filled.
    abbrev Filled : ℕ → Initialized sys → Type 0
    Filled capacity r =
        (slots : List Slot) × (r.store.slots ≡ some slots)
        × (r.store.initialized ≡ true)
        × (r.store.count ≤ length slots)
        × (length slots ≡ capacity)
        × (r.ok ≡ ltb 0 r.store.count)

    fill-Filled :
        (builtin extra : List (List ℕ)) (capacity count : ℕ) (path : List ℕ) (slots : List Slot)
        (w : World sys)
        → length slots ≡ capacity
        → (r : Initialized sys) × (fill sys d builtin extra capacity count path slots w ≡ some r)
          × Filled capacity r
    unfolding fill
    fill-Filled builtin extra capacity count path slots w l =
        let t : Table = record { slots = slots; next = 0; count = 0 } in
        let (a, e, f) = add_external-Fits capacity count path t w (l, refl, omega arith) in
        let (t1, e1, f1) = roots_loop-Fits d small capacity builtin a.table f in
        let (t2, e2, f2) = roots_loop-Fits d small capacity extra t1 f1 in
        (
          record {
            ok = ltb 0 t2.count;
            store = record {
              slots = some t2.slots;
              capacity = capacity;
              count = t2.count;
              initialized = true;
            };
            world = a.world;
          },
          rw (e, fill, e1, e2) refl,
          (t2.slots, refl, refl, omega (arith, f2), f2.0, refl),
        )

    -- What a call that has something to do leaves, where `external` certificates were counted in
    -- the file.
    abbrev pub Settled : ℕ → Initialized sys → Type 0
    Settled external r =
        ((r.ok ≡ false) × (r.store.slots ≡ none) × (r.store.initialized ≡ false))
        ⊎ ((slots : List Slot) × (r.store.slots ≡ some slots)
            × (r.store.initialized ≡ true)
            × (r.store.count ≤ length slots)
            × (length slots ≡ public_root_count + external)
            × (external ≤ max_external_root_count)
            × (r.ok ≡ ltb 0 r.store.count))

    init_counted-Settled :
        (builtin extra : List (List ℕ)) (count : ℕ) (path : List ℕ) (s : Store) (w : World sys)
        → s.initialized ≡ false
        → count ≤ max_external_root_count
        → (r : Initialized sys) × (init_counted sys d builtin extra count path s w ≡ some r)
          × Settled count r
    unfolding init_counted
    init_counted-Settled builtin extra count path s w fresh few =
        let capacity = public_root_count + count in
        let (slots, w2) = alloc sys capacity w in
        elim (Option-cases slots) [
          | inl nothing ↦ (
            record { ok = false; store = record s { slots = none; capacity = 0 }; world = w2 },
            rw (init_counted, nothing) refl,
            inl (refl, refl, fresh),
          )
          | inr (entries, got) ↦
              let l = length-alloc capacity w entries got in
              let (r, e, (t, st, on, le, size, ok)) =
                fill-Filled builtin extra capacity count path entries w2 l in
              (r, rw (init_counted, got) e, inr (t, st, on, le, size, few, ok))
        ]

    -- Where the array for the path has a cell, the path of the roots is computed without a fault,
    -- and the pieces of every name are such that their length plus 512 does not pass 32 bits,
    -- `init` of a store that is not initialized returns. Then either it returned 0, and there are
    -- no tables; or the store is initialized, the tables have 23 entries and as many more as
    -- certificates were counted in the file, at most 256, the count of the anchors is at most the
    -- number of the entries, and the call returned 1 exactly if there is one.
    pub init_lem :
        (builtin extra : List (List ℕ)) (stack cleared : List ℕ) (s : Store) (w : World sys)
        (path : Bool × List ℕ)
        → s.initialized ≡ false
        → store stack 0 0 ≡ some cleared
        → get_roots_path (sys.get_module_file_name) cleared max_path ≡ some path
        → (r : Initialized sys) × (init sys d builtin extra stack s w ≡ some r)
          × Settled (count_external sys path.0 path.1 w).0 r
    unfolding init
    init_lem builtin extra stack cleared s w path fresh sc rp =
        let (count, w1) = count_external sys path.0 path.1 w in
        let (r, e, settled) =
          init_counted-Settled builtin extra count path.1 s w1 fresh
            (count_external-le path.0 path.1 w) in
        (r, simp (fresh, init, sc, rp) e, settled)
