-- ===== src/CertStore/Kept.antt =====
-- What `wm_cert_store_init` of BearTLS/wm_cert_store.c keeps of the system when it returns.
use bear_tls.Base.{
  some_inj, ℕ, ◌+◌, ◌≡◌, false, Option-cases, Option, none, some, List, arith, length, inl, inr,
  All,
}
use bear_tls.CertStore.Paths.{max_path}
use bear_tls.CertStore.Anchor.{Decoder, Slot}
use bear_tls.CertStore.Name.{Addressable}
use bear_tls.CertStore.File.{System, World}
use bear_tls.CertStore.Load.{
  Store, Initialized, count_external, alloc, init_counted, init, public_root_count,
}
use bear_tls.CertStore.Resources.{
  Holds, Allocated, count_external-Holds, alloc-Allocated, fill-Allocated,
}
use bear_tls.CertStore.Documented.{Documented, store_Returns, get_roots_path-Returns}
use bear_tls.CertStore.Start.{init_lem}

module _ (sys : System) where
  alloc_none :
      (w w' : World sys) (o : Option (List Slot))
      → Allocated sys w o w'
      → o ≡ none
      → Holds sys 0 w w'
  alloc_none w w' none h e = h
  alloc_none w w' (some slots) h e = cc

  alloc_some :
      (w w' : World sys) (o : Option (List Slot)) (slots : List Slot)
      → Allocated sys w o w'
      → o ≡ some slots
      → Holds sys 2 w w'
  alloc_some w w' none slots h e = cc
  alloc_some w w' (some s) slots h e = h

  init_counted-Allocated :
      (d : Decoder) (builtin extra : List (List ℕ)) (count : ℕ) (path : List ℕ) (s : Store)
      (w w0 : World sys) (r : Initialized sys)
      → init_counted sys d builtin extra count path s w ≡ some r
      → Holds sys 0 w0 w
      → Allocated sys w0 r.store.slots r.world
  unfolding init_counted
  init_counted-Allocated d builtin extra count path s w w0 r e (f, b) =
      let capacity = public_root_count + count in
      let (slots, w2) = alloc sys capacity w in
      let taken = alloc-Allocated sys capacity w in
      elim (Option-cases slots) [
        | inl nothing ↦
            let (f2, b2) = alloc_none w w2 slots taken nothing in
            rw (← some_inj (rw (nothing, init_counted) at e)) (omega arith, omega arith)
        | inr (entries, got) ↦
            let (f2, b2) = alloc_some w w2 slots entries taken got in
            let ((f3, b3), filled, there) =
              fill-Allocated sys d builtin extra capacity count path entries w2 r
                (rw (got, init_counted) at e) in
            rw there (omega arith, omega arith)
      ]

  module _ (d : Decoder) (small : (der : List ℕ) → All Addressable (d.dn_chunks der)) where
    -- Where `GetModuleFileName` keeps to its documentation, the array for the path has 260 cells
    -- and the pieces of every name are such that their length plus 512 does not pass 32 bits,
    -- `init` of a store that is not initialized always returns. It leaves as many files open as
    -- before, and of the heap it keeps exactly the two blocks of the tables, or none where there
    -- are no tables: whatever the calls of the system answer, the text of the file and the block
    -- for a certificate are given back on every path.
    pub init-Allocated :
        (builtin extra : List (List ℕ)) (stack : List ℕ) (s : Store) (w : World sys)
        → Documented sys.get_module_file_name
        → length stack ≡ max_path
        → s.initialized ≡ false
        → (r : Initialized sys) × (init sys d builtin extra stack s w ≡ some r)
          × Allocated sys w r.store.slots r.world
    unfolding init
    init-Allocated builtin extra stack s w documented l fresh =
        let (cleared, sc, lc) = store_Returns stack 0 0 (omega arith) l in
        let (path, rp, lp) =
          get_roots_path-Returns (sys.get_module_file_name) documented cleared lc in
        let (r, e, settled) =
          init_lem d small sys builtin extra stack cleared s w path fresh sc rp in
        let counted = count_external sys path.0 path.1 w in
        (
          r,
          e,
          init_counted-Allocated d builtin extra counted.0 path.1 s counted.1 w r
              (simp (fresh, init, sc, rp) at e) (count_external-Holds sys path.0 path.1 w),
        )
