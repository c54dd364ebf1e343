-- ===== src/Connection/Platform.antt =====
-- What BearTLS/wm_https.c uses of the TLS library, of Winsock and of the system, as one interface,
-- and the counts of what is held.
use bear_tls.Base.{ℕ, ◌-◌, ◌==◌, Bool, not, Option, none, some, List, bit_and}
use bear_tls.CertStore.Interface.{RootStore}

-- `Engine` is the client context with its buffers, `Net` the state of the system and of the
-- network, and `roots` the certificate store. A pointer with a length is a list. `send` and `recv`
-- give `none` for SOCKET_ERROR.
pub record Platform : Type 1 where
  pub Engine : Type 0
  pub Net : Type 0
  pub roots : RootStore Net
  pub current_state : Engine → ℕ
  pub last_error : Engine → ℕ
  pub sendrec_buf : Engine → List ℕ
  pub sendrec_ack : Engine → ℕ → Engine
  pub recvrec_len : Engine → ℕ
  pub recvrec_ack : Engine → List ℕ → Engine
  pub sendapp_len : Engine → ℕ
  pub sendapp_ack : Engine → List ℕ → Engine
  pub flush : Engine → Engine
  pub recvapp_buf : Engine → List ℕ
  pub recvapp_ack : Engine → ℕ → Engine
  pub close : Engine → Engine
  pub init_full : roots.Anchors → Engine
  pub set_versions : Engine → Engine
  pub set_buffer : Engine → Engine
  pub reset : Engine → List ℕ → Bool × Engine
  pub wsa_error : Net → ℕ
  pub startup : Net → Bool × Net
  pub socket : Net → Option ℕ × Net
  pub inet_addr : List ℕ → Option ℕ
  pub gethostbyname : Net → List ℕ → Option ℕ × Net
  pub connect : Net → ℕ → ℕ → ℕ → Bool × Net
  pub set_timeout : Net → ℕ → ℕ → Bool × Net
  pub send : Net → Option ℕ → List ℕ → Option ℕ × Net
  pub recv : Net → Option ℕ → ℕ → Option (List ℕ) × Net
  pub closesocket : Net → ℕ → Net
  pub cleanup : Net → Net
  pub heap_alloc : Net → Bool × Net
  pub heap_free : Net → Net

-- The flags of `br_ssl_engine_current_state`.
abbrev pub br_ssl_closed : ℕ
br_ssl_closed = 1

abbrev pub br_ssl_sendrec : ℕ
br_ssl_sendrec = 2

abbrev pub br_ssl_recvrec : ℕ
br_ssl_recvrec = 4

abbrev pub br_ssl_sendapp : ℕ
br_ssl_sendapp = 8

abbrev pub br_ssl_recvapp : ℕ
br_ssl_recvapp = 16

-- `state & flag`, as a test.
abbrev pub has : ℕ → ℕ → Bool
has state flag = not (bit_and state flag == 0)

-- `wm_https_result` of BearTLS/wm_https.h; the pointer to one may be null.
pub record HttpsResult : Type 0 where
  pub ok : ℕ
  pub tls_error : ℕ
  pub wsa_error : ℕ
  pub http_bytes : ℕ

-- `wm_https_zero_result`
unfoldable pub zero_result : Option HttpsResult → Option HttpsResult
zero_result none = none
zero_result (some r) = some (record { ok = 0; tls_error = 0; wsa_error = 0; http_bytes = 0 })

abbrev pub set_ok : ℕ → Option HttpsResult → Option HttpsResult
set_ok v none = none
set_ok v (some r) = some (record r { ok = v })

abbrev pub set_tls_error : ℕ → Option HttpsResult → Option HttpsResult
set_tls_error v none = none
set_tls_error v (some r) = some (record r { tls_error = v })

abbrev pub set_wsa_error : ℕ → Option HttpsResult → Option HttpsResult
set_wsa_error v none = none
set_wsa_error v (some r) = some (record r { wsa_error = v })

abbrev pub set_http_bytes : ℕ → Option HttpsResult → Option HttpsResult
set_http_bytes v none = none
set_http_bytes v (some r) = some (record r { http_bytes = v })

module _ (p : Platform) where
  -- The system and the certificate store, with what is held of the system: uses of Winsock, open
  -- sockets, blocks of the heap. The blocks of the certificate store count too.
  pub record World : Type 0 where
    pub net : p.Net
    pub store : p.roots.Store
    pub startups : ℕ
    pub sockets : ℕ
    pub blocks : ℕ

  -- `wm_tls_connection`: `iobuf` belongs to the engine.
  pub record Connection : Type 0 where
    pub sock : Option ℕ
    pub engine : p.Engine
    pub closed : Bool

  -- `wm_https_disconnect`; `none` is INVALID_SOCKET.
  unfoldable pub disconnect : Option ℕ → World → World
  disconnect none w = record w { net = p.cleanup w.net; startups = w.startups - 1 }
  disconnect (some s) w = record w {
    net = p.cleanup (p.closesocket w.net s);
    startups = w.startups - 1;
    sockets = w.sockets - 1;
  }

  abbrev pub free_block : World → World
  free_block w = record w { net = p.heap_free w.net; blocks = w.blocks - 1 }
