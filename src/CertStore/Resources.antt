-- ===== src/CertStore/Resources.antt =====
-- What the certificate store of BearTLS/wm_cert_store.c holds of the system: open files and blocks
-- of the heap.
use bear_tls.Base.{
  some_inj, ℕ, suc, ◌+◌, ◌≤◌, ◌<◌, ◌≡◌, refl, ◌==◌, ◌&&◌, ◌||◌, Bool, true, false, not, Bool-cases,
  >>=-eq-some, Option-cases, Option, none, some, List, arith, ltb, length, inl, inr, get_or,
  c_string,
}
use bear_tls.CertStore.Anchor.{Decoder, Slot}
use bear_tls.CertStore.File.{
  System, World, FileRead, read_block, read_open, read_file, cert_file_max_bytes,
}
use bear_tls.CertStore.Load.{
  Table, Loaded, load_loop, load_text, load_pem_roots, alloc, Initialized, count_external,
  add_external, roots_loop, fill, cert_der_max_bytes,
}

module _ (sys : System) where
  -- The same files are open in both worlds, and the second has `n` blocks more.
  abbrev pub Holds : ℕ → World sys → World sys → Type 0
  Holds n w w' = (w'.files ≡ w.files) × (w'.blocks ≡ w.blocks + n)

  -- The block that a read leaves to its caller, and the bound on its size.
  abbrev pub ReadHolds : World sys → FileRead sys → Type 0
  ReadHolds w (none, w') = Holds 0 w w'
  ReadHolds w (some bytes, w') =
      Holds 1 w w' × (0 < length bytes) × (length bytes ≤ cert_file_max_bytes)

  read_nothing : (w : World sys) (r : FileRead sys) → ReadHolds w r → r.0 ≡ none → Holds 0 w r.1
  read_nothing w (none, w') h e = h
  read_nothing w (some bytes, w') h e = cc

  read_something :
      (w : World sys) (r : FileRead sys) (bytes : List ℕ)
      → ReadHolds w r
      → r.0 ≡ some bytes
      → Holds 1 w r.1
  read_something w (none, w') bytes h e = cc
  read_something w (some b, w') bytes h e = h.0

  read_block-Holds :
      (size : ℕ) (w w0 : World sys)
      → w.files ≡ w0.files + 1
      → w.blocks ≡ w0.blocks + 1
      → 0 < size
      → size ≤ cert_file_max_bytes
      → ReadHolds w0 (read_block sys size w)
  unfolding read_block
  read_block-Holds size w w0 f b pos small = elim (Option-cases (sys.read_bytes w.state size).0) [
    | inl failed ↦ rw (failed, read_block) (omega arith, omega arith)
    | inr (bytes, got) ↦ elim (Bool-cases (length bytes == size)) [
      | inl full ↦
          rw (got, read_block, full) ((omega arith, omega arith), ground arith, ground arith)
      | inr short ↦ rw (got, read_block, short) (omega arith, omega arith)
    ]
  ]

  read_open-Holds :
      (w w0 : World sys)
      → w.files ≡ w0.files + 1
      → w.blocks ≡ w0.blocks
      → ReadHolds w0 (read_open sys w)
  unfolding read_open
  read_open-Holds w w0 f b =
      let size = sys.get_file_size w.state in
      elim (Bool-cases ((size == 0xffff_ffff) || (size == 0) || ltb cert_file_max_bytes size)) [
        | inl refused ↦ rw (refused, read_open) (omega arith, omega arith)
        | inr wanted ↦ elim (Bool-cases (sys.heap_alloc w.state (size + 1)).0) [
          | inl block ↦
              rw (wanted, block, read_open)
                (read_block-Holds size _ w0 f (omega arith) (ground arith) (ground arith))
          | inr no_block ↦ rw (wanted, no_block, read_open) (omega arith, omega arith)
        ]
      ]

  read_file-Holds : (path : List ℕ) (w : World sys) → ReadHolds w (read_file sys path w)
  unfolding read_file
  read_file-Holds path w = elim (Bool-cases (sys.create_file w.state path).0) [
    | inl opened ↦ rw (opened, read_file) (read_open-Holds _ w refl refl)
    | inr not_opened ↦ rw (not_opened, read_file) (omega arith, omega arith)
  ]

  -- The text's block is given back, and the block of a certificate is taken and given back.
  load_text-Holds :
      (d : Decoder) (capacity : ℕ) (pem : List ℕ) (t : Table) (w w0 : World sys) (l : Loaded sys)
      → load_text sys d capacity pem t w ≡ some l
      → Holds 1 w0 w
      → Holds 0 w0 l.world
  unfolding load_text
  load_text-Holds d capacity pem t w w0 l e (f, b) =
      elim (Bool-cases (sys.heap_alloc w.state cert_der_max_bytes).0) [
        | inr no_block ↦
            let same = some_inj (rw (no_block, load_text) at e) in rw (← same) (f, omega arith)
        | inl block ↦
            let (r, g, h) =
              >>=-eq-some (load_loop (suc (length pem)) d capacity pem t 0) _
                (rw (block, load_text) at e) in
            rw (← some_inj h) (f, omega arith)
      ]

  load_pem_roots-Holds :
      (d : Decoder) (capacity : ℕ) (path : List ℕ) (t : Table) (w : World sys) (l : Loaded sys)
      → load_pem_roots sys d capacity path t w ≡ some l
      → Holds 0 w l.world
  unfolding load_pem_roots
  load_pem_roots-Holds d capacity path t w l e =
      let read = read_file-Holds path w in
      elim (Option-cases (read_file sys path w).0) [
        | inl no_file ↦
            rw (← some_inj (rw (no_file, load_pem_roots) at e)) (read_nothing w _ read no_file)
        | inr (pem, there) ↦
            load_text-Holds d capacity pem t (read_file sys path w).1 w l
              (rw (there, load_pem_roots) at e) (read_something w _ pem read there)
      ]

  add_external-Holds :
      (d : Decoder) (capacity count : ℕ) (path : List ℕ) (t : Table) (w : World sys)
      (l : Loaded sys)
      → add_external sys d capacity count path t w ≡ some l
      → Holds 0 w l.world
  unfolding add_external
  add_external-Holds d capacity count path t w l e =
      elim (Bool-cases (ltb 0 count && not (get_or path 0 0 == 0))) [
        | inl needed ↦
            load_pem_roots-Holds d capacity (c_string path) t w l (rw (needed, add_external) at e)
        | inr skipped ↦ rw (← some_inj (rw (skipped, add_external) at e)) (refl, omega arith)
      ]

  pub count_external-Holds :
      (got : Bool) (path : List ℕ) (w : World sys) → Holds 0 w (count_external sys got path w).1
  unfolding count_external
  count_external-Holds false path w = (refl, omega arith)
  count_external-Holds true path w =
      let read = read_file-Holds (c_string path) w in
      elim (Option-cases (read_file sys (c_string path) w).0) [
        | inl no_file ↦ rw (no_file, count_external) (read_nothing w _ read no_file)
        | inr (pem, there) ↦
            let (f, b) = read_something w _ pem read there in
            rw (there, count_external) (f, omega arith)
      ]

  -- The two blocks of the tables, or none.
  abbrev pub Allocated : World sys → Option (List Slot) → World sys → Type 0
  Allocated w none w' = Holds 0 w w'
  Allocated w (some slots) w' = Holds 2 w w'

  pub alloc-Allocated :
      (capacity : ℕ) (w : World sys) → Allocated w (alloc sys capacity w).0 (alloc sys capacity w).1
  unfolding alloc
  alloc-Allocated capacity w = ground arith

  pub fill-Allocated :
      (d : Decoder) (builtin extra : List (List ℕ)) (capacity count : ℕ) (path : List ℕ)
      (slots : List Slot) (w : World sys) (r : Initialized sys)
      → fill sys d builtin extra capacity count path slots w ≡ some r
      → Holds 0 w r.world × (filled : List Slot) × (r.store.slots ≡ some filled)
  unfolding fill
  fill-Allocated d builtin extra capacity count path slots w r e =
      let t : Table = record { slots = slots; next = 0; count = 0 } in
      let (l, f, e1) = >>=-eq-some (add_external sys d capacity count path t w) _ e in
      let (t1, g, e2) = >>=-eq-some (roots_loop d capacity builtin l.table) _ e1 in
      let (t2, h, e3) = >>=-eq-some (roots_loop d capacity extra t1) _ e2 in
      let done = some_inj e3 in
      rw (← done) (add_external-Holds d capacity count path t w l f, t2.slots, refl)
