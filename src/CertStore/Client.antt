-- ===== src/CertStore/Client.antt =====
-- The certificate store of BearTLS/wm_cert_store.c as BearTLS/wm_https.c uses it: the interface is
-- filled by `wm_cert_store_init`.
use bear_tls.Base.{
  some_inj, ℕ, ◌+◌, ◌≡◌, refl, ◌∙◌, sym, true, Bool-cases, Option-cases, ◌≤◌, Option, none, some,
  List, arith, length, inl, inr, All, if◌then◌else◌,
}
use bear_tls.CertStore.Interface.{RootStore}
use bear_tls.CertStore.Paths.{max_path}
use bear_tls.CertStore.Anchor.{Decoder, Slot}
use bear_tls.CertStore.Name.{Addressable}
use bear_tls.CertStore.File.{System, World}
use bear_tls.CertStore.Load.{Store, Initialized, count_external, init}
use bear_tls.CertStore.Resources.{Holds, Allocated}
use bear_tls.CertStore.Documented.{Documented, store_Returns, get_roots_path-Returns}
use bear_tls.CertStore.Start.{Settled, init_lem}
use bear_tls.CertStore.Kept.{init-Allocated}

-- The blocks that `g_trust_anchors` and `g_anchor_storage` point to.
abbrev pub blocks_of : Option (List Slot) → ℕ
blocks_of none = 0
blocks_of (some slots) = 2

-- The pointers are set only in a store that is initialized.
abbrev pub table_blocks : Store → ℕ
table_blocks s = if s.initialized then blocks_of s.slots else 0

pub table_blocks_bound : (s : Store) → table_blocks s ≤ 2
table_blocks_bound s = elim (Option-cases s.slots) [
  | inl nothing ↦ elim (Bool-cases s.initialized) [
    | inl on ↦ rw (on, nothing) (omega arith)
    | inr off ↦ rw off (omega arith)
  ]
  | inr (slots, there) ↦ elim (Bool-cases s.initialized) [
    | inl on ↦ rw (on, there) (omega arith)
    | inr off ↦ rw off (omega arith)
  ]
]

module _ (sys : System) where
  Allocated-blocks :
      (w w' : World sys) (o : Option (List Slot))
      → Allocated sys w o w'
      → Holds sys (blocks_of o) w w'
  Allocated-blocks w w' none h = h
  Allocated-blocks w w' (some slots) h = h

  module _ (d : Decoder) (small : (der : List ℕ) → All Addressable (d.dn_chunks der)) where
    Settled-blocks :
        (external : ℕ) (r : Initialized sys)
        → Settled d small sys external r
        → table_blocks r.store ≡ blocks_of r.store.slots
    Settled-blocks external r (inl (bad, nothing, off)) = rw (off, nothing) refl
    Settled-blocks external r (inr (slots, there, on, le, size, few, ok)) = rw on refl

    module _ (documented : Documented sys.get_module_file_name) (builtin extra : List (List ℕ))
        (stack : List ℕ) (l : length stack ≡ max_path) where
      -- Where `GetModuleFileName` keeps to its documentation, the array for the path has 260 cells
      -- and the pieces of every name are such that their length plus 512 does not pass 32 bits,
      -- `init` of any store returns, leaves as many files open as before, gives back no table, and
      -- takes just the blocks of the heap by which the tables of the store grew, which are two at
      -- most.
      pub init-grown :
          (s : Store) (w : World sys)
          → (r : Initialized sys) × (init sys d builtin extra stack s w ≡ some r)
            × (r.world.files ≡ w.files)
            × (r.world.blocks + table_blocks s ≡ w.blocks + table_blocks r.store)
            × (table_blocks s ≤ table_blocks r.store)
            × (table_blocks r.store ≤ 2)
      unfolding init
      init-grown s w = elim (Bool-cases s.initialized) [
        | inl on ↦ (
          record { ok = true; store = s; world = w },
          rw (init, on) refl,
          refl,
          refl,
          omega arith,
          table_blocks_bound s,
        )
        | inr off ↦
            let (r, e, allocated) =
              init-Allocated sys d small builtin extra stack s w documented l off in
            let (cleared, sc, lc) = store_Returns stack 0 0 (omega (arith, l)) l in
            let (path, rp, lp) =
              get_roots_path-Returns (sys.get_module_file_name) documented cleared lc in
            let (r', e', settled) =
              init_lem d small sys builtin extra stack cleared s w path off sc rp in
            let same : r' ≡ r = some_inj (sym e' ∙ e) in
            let external = (count_external sys path.0 path.1 w).0 in
            let blocks = Settled-blocks external r (rw (← same) settled) in
            let (f, b) = Allocated-blocks w r.world r.store.slots allocated in
            (
              r,
              e,
              omega (arith, f),
              rw off (omega (arith, b, blocks)),
              rw off (omega arith),
              table_blocks_bound r.store,
            )
      ]

      -- The certificate store as its client sees it.
      abbrev pub root_store : RootStore sys.State
      root_store = record {
        Store = Store;
        Anchors = Option (List Slot) × ℕ;
        init = λ s net.
            let r = (init-grown s (record { state = net; files = 0; blocks = 0 })).0 in
            (r.ok, r.world.blocks, r.store, r.world.state);
        anchors = λ s. (s.slots, s.count);
        tables = table_blocks;
        tables_bound = table_blocks_bound;
        tables-init = λ s net.
            omega (arith, (init-grown s (record { state = net; files = 0; blocks = 0 })).3);
      }
