-- ===== src/Tests/Store.antt =====
-- The certificate store of BearTLS/wm_cert_store.c at concrete inputs, with simple functions in
-- place of the decoder and of the system.
use bear_tls.Base.{
  ℕ, suc, ◌+◌, ◌≡◌, ◌≤◌, ◌<◌, ◌⊎◌, refl, true, false, List, [], ◌∷◌, ◌++◌, none, some, arith,
  length, length-append, length-drop, min, take, drop, codes, replicate, All, store, memcpy,
}
use bear_tls.CertStore.Paths.{get_dll_path, get_install_dir, get_roots_path}
use bear_tls.CertStore.Pem.{
  begin_marker, count_loop, find_text, find_text_loop, starts_with, count_pem_certs,
}
use bear_tls.CertStore.Search.{find_text_found, find_text_finds}
use bear_tls.CertStore.Marks.{marks, count_pem_certs-eq-marks}
use bear_tls.CertStore.Room.{load_loop_room}
use bear_tls.CertStore.Resources.{Allocated}
use bear_tls.CertStore.Documented.{Documented}
use bear_tls.CertStore.Kept.{init-Allocated}
use bear_tls.CertStore.Anchor.{
  zero_slot, DnSink, append_chunks, fresh_sink, Decoder, Pkey, Slot, Built, build_anchor_from_der,
  max_dn_len,
}
use bear_tls.CertStore.Name.{Holds, Addressable, append_chunks_lem}
use bear_tls.CertStore.Build.{Sized, Names, HasKey, build_anchor_lem}
use bear_tls.CertStore.File.{System, World}
use bear_tls.CertStore.Load.{count_external, Table, load_loop, Initialized, init, empty_store}
use bear_tls.CertStore.Filling.{Fits, load_loop-Fits}
use bear_tls.CertStore.Start.{Settled, init_lem}

find_text_found_example : take 2 (drop 3 (codes "abcdef")) ≡ codes "de"
unfolding find_text find_text_loop starts_with
find_text_found_example = find_text_found (codes "abcdef") (codes "de") 3 refl

find_text_finds_example : (i : ℕ) × (find_text (codes "deade") (codes "de") ≡ some i) × (i ≤ 3)
find_text_finds_example = find_text_finds (codes "deade") (codes "de") 3 refl

abbrev one_cert : List ℕ
one_cert = codes "x " ++ begin_marker ++ codes "QUFB-----END CERTIFICATE-----"

count_pem_certs-eq-marks_example : count_pem_certs one_cert ≡ min 256 (marks 0 one_cert)
count_pem_certs-eq-marks_example = count_pem_certs-eq-marks one_cert

abbrev any_key : Pkey
any_key = record { key_type = 1; n = 5 ∷ 6 ∷ []; e = 3 ∷ []; curve = 0; q = [] }

-- The decoder that finds the same in every certificate.
abbrev pub one_ca : Decoder
one_ca = record {
  dn_chunks = λ der. (65 ∷ []) ∷ (66 ∷ []) ∷ [];
  last_error = λ der. 0;
  get_pkey = λ der. some any_key;
  is_ca = λ der. true;
}

append_chunks_lem_example :
    (s : DnSink) × (append_chunks fresh_sink ((65 ∷ []) ∷ (66 ∷ []) ∷ []) ≡ some s)
    × (((s.overflow ≡ false) × Holds (65 ∷ 66 ∷ []) s)
        ⊎ ((s.overflow ≡ true) × (length s.buf ≡ max_dn_len) × (max_dn_len < 2)))
append_chunks_lem_example =
    append_chunks_lem ((65 ∷ []) ∷ (66 ∷ []) ∷ []) fresh_sink []
      (refl, refl, refl, omega arith, refl) refl (omega arith)

build_anchor_lem_example :
    (b : Built) × (build_anchor_from_der one_ca (1 ∷ []) ≡ some b)
    × Sized b.1
    × ((b.0 ≡ false)
        ⊎ ((key : Pkey) × (one_ca.get_pkey (1 ∷ []) ≡ some key)
            × (one_ca.last_error (1 ∷ []) ≡ 0)
            × (one_ca.is_ca (1 ∷ []) ≡ true)
            × Names (65 ∷ 66 ∷ []) b.1
            × HasKey key b.1))
build_anchor_lem_example = build_anchor_lem one_ca (1 ∷ []) (omega arith)

abbrev two_slots : List Slot
two_slots = zero_slot ∷ zero_slot ∷ []

pub small_names : (der : List ℕ) → All Addressable (one_ca.dn_chunks der)
small_names der = omega arith

load_loop-Fits_example :
    (n : ℕ) × (t : Table) × (load_loop 99 one_ca 2 one_cert
        (record { slots = two_slots; next = 0; count = 0 })
        0
      ≡ some (n, t))
    × Fits 2 t
load_loop-Fits_example =
    load_loop-Fits one_ca small_names 99 2 one_cert
      (record { slots = two_slots; next = 0; count = 0 }) 0 (omega arith) (refl, refl, omega arith)

abbrev bare_system : System
bare_system = record {
  State = ℕ;
  create_file = λ s path. (false, s);
  get_file_size = λ s. 0;
  read_bytes = λ s n. (none, s);
  close_handle = λ s. s;
  heap_alloc = λ s n. (true, s);
  heap_free = λ s. s;
  sizeof_trust_anchor = 32;
  get_module_file_name = λ out n. (0, out);
}

abbrev at_rest : World bare_system
at_rest = record { state = 0; files = 0; blocks = 0 }

init_lem_example :
    (r : Initialized bare_system) × (init bare_system one_ca
        ((1 ∷ []) ∷ [])
        []
        (replicate 260 7)
        empty_store
        at_rest
      ≡ some r)
    × Settled one_ca small_names bare_system 0 r
unfolding store memcpy get_roots_path get_install_dir get_dll_path count_external
init_lem_example =
    init_lem one_ca small_names bare_system ((1 ∷ []) ∷ []) [] (replicate 260 7)
      (0 ∷ replicate 259 7) empty_store at_rest (false, 0 ∷ replicate 259 7) refl refl refl

one_counted : count_pem_certs one_cert ≡ 1
unfolding count_pem_certs count_loop find_text find_text_loop starts_with
one_counted = refl

load_loop_room_example :
    (n : ℕ) × (t : Table) × (load_loop
        (suc (length one_cert))
        one_ca
        24
        one_cert
        (record { slots = replicate 24 zero_slot; next = 0; count = 0 })
        0
      ≡ some (n, t))
    × (t.next + 23 ≤ 24)
load_loop_room_example =
    load_loop_room one_ca small_names 24 one_cert
      (record { slots = replicate 24 zero_slot; next = 0; count = 0 })
      (rw one_counted (omega arith)) (rw one_counted refl) (refl, refl, omega arith) refl

abbrev place : List ℕ
place = codes "\\BearTLS\\wm_https.dll"

-- A system with the file of one certificate.
abbrev pub filed_system : System
filed_system = record {
  State = ℕ;
  create_file = λ s path. (true, s);
  get_file_size = λ s. length one_cert;
  read_bytes = λ s n. (some one_cert, s);
  close_handle = λ s. s;
  heap_alloc = λ s n. (true, s);
  heap_free = λ s. s;
  sizeof_trust_anchor = 32;
  get_module_file_name = λ out n. (length place, place ++ (0 ∷ drop (length place + 1) out));
}

pub filed_system-Documented : Documented filed_system.get_module_file_name
filed_system-Documented cells l =
    let rest = drop (length place + 1) cells in
    (
      length place,
      place ++ (0 ∷ rest),
      refl,
      omega (arith, length-append place (0 ∷ rest), length-drop (length place + 1) cells, l),
      λ pos small. (place, rest, refl),
    )

abbrev filed_at_rest : World filed_system
filed_at_rest = record { state = 0; files = 0; blocks = 0 }

init-Allocated_example :
    (r : Initialized filed_system) × (init filed_system one_ca
        ((1 ∷ []) ∷ [])
        []
        (replicate 260 7)
        empty_store
        filed_at_rest
      ≡ some r)
    × Allocated filed_system filed_at_rest r.store.slots r.world
init-Allocated_example =
    init-Allocated filed_system one_ca small_names ((1 ∷ []) ∷ []) [] (replicate 260 7) empty_store
      filed_at_rest filed_system-Documented refl refl
