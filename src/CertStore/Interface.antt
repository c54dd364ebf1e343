-- ===== src/CertStore/Interface.antt =====
-- What BearTLS/wm_https.c uses of the certificate store of BearTLS/wm_cert_store.c, as an
-- interface.
use bear_tls.Base.{ℕ, ◌+◌, ◌≡◌, ◌≤◌, Bool}

-- `Net` is the state of the system, and `Store` that of the static variables of the certificate
-- store. `init` is `wm_cert_store_init`, with the number of heap blocks that it keeps beside its
-- return value; `anchors` is `wm_cert_store_anchors` with `wm_cert_store_anchor_count`, of a store
-- that is initialized; `tables` is the number of heap blocks that the static variables point to.
pub record RootStore (Net : Type 0) : Type 1 where
  pub Store : Type 0
  pub Anchors : Type 0
  pub init : Store → Net → Bool × ℕ × Store × Net
  pub anchors : Store → Anchors
  pub tables : Store → ℕ
  pub tables_bound : (s : Store) → tables s ≤ 2
  pub tables-init : (s : Store) (net : Net) → tables (init s net).2 ≡ tables s + (init s net).1
