-- ===== src/Tests/Certified.antt =====
-- The connections of BearTLS/wm_https.c over the certificate store of BearTLS/wm_cert_store.c.
use bear_tls.Base.{ℕ, ◌≡◌, refl, [], ◌∷◌, some, none, codes, replicate, arith}
use bear_tls.CertStore.Interface.{RootStore}
use bear_tls.CertStore.Load.{empty_store}
use bear_tls.CertStore.Client.{root_store}
use bear_tls.Connection.Platform.{Platform, World}
use bear_tls.Connection.Exchange.{Exchanged, returned, exchange_internal}
use bear_tls.Connection.Held.{Restored}
use bear_tls.Connection.Leaks.{exchange_internal-Balanced}
use bear_tls.Connection.Returns.{exchange_internal_returns}
use bear_tls.Tests.Store.{one_ca, small_names, filed_system, filed_system-Documented}
use bear_tls.Tests.Echo.{echo_with, echo_streams_with, echo_progress_with}

-- The store that is filled from a file with one certificate and from a table with another.
abbrev one_root : RootStore ℕ
one_root =
    root_store filed_system one_ca small_names filed_system-Documented ((1 ∷ []) ∷ []) []
      (replicate 260 7) refl

abbrev certified : Platform
certified = echo_with one_root

abbrev before_use : World certified
before_use = record { net = 0; store = empty_store; startups = 0; sockets = 0; blocks = 0 }

-- An exchange with that store returns, and restores what was held but for the tables.
certified_exchange :
    (x : Exchanged certified) × (exchange_internal certified 99
        (some (codes "a"))
        443
        none
        (some (codes "GET /"))
        (replicate 40 1)
        40
        before_use
        none
      ≡ returned x)
    × Restored certified before_use x.world
certified_exchange =
    let (x, e, l, how) =
      exchange_internal_returns certified (echo_progress_with one_root) (echo_streams_with one_root)
        99 (some (codes "a")) 443 none (codes "GET /") (replicate 40 1) 40 before_use none refl
        (omega arith) in
    (
      x,
      e,
      exchange_internal-Balanced certified 99 (some (codes "a")) 443 none (some (codes "GET /"))
          (replicate 40 1) 40 before_use none x e,
    )
