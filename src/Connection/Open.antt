-- ===== src/Connection/Open.antt =====
-- `wm_tls_open` and `wm_tls_close` of BearTLS/wm_https.c.
use bear_tls.Base.{
  ℕ, zero, suc, ◌+◌, ◌||◌, Bool, true, false, not, Option, none, some, List, [], ◌∷◌, if◌then◌else◌,
}
use bear_tls.Connection.Platform.{
  Platform, World, Connection, HttpsResult, zero_result, set_ok, set_tls_error, disconnect,
  free_block, has, br_ssl_sendrec, br_ssl_sendapp, br_ssl_recvapp,
}
use bear_tls.Connection.Connect.{Connected, connect_ipv4}
use bear_tls.Connection.Records.{Step, drive_records, send_pending}

-- `(sni_host != 0 && sni_host[0] != '\0') ? sni_host : host`
abbrev pub sni_name : Option (List ℕ) → List ℕ → List ℕ
sni_name none host = host
sni_name (some []) host = host
sni_name (some (c ∷ cs)) host = c ∷ cs

module _ (p : Platform) where
  -- `conn` is what `*out_conn` points to; `none` goes with the return of 0.
  pub record Opened : Type 0 where
    pub conn : Option (Connection p)
    pub world : World p
    pub result : Option HttpsResult

  -- The handshake loop. A step with `ok` false, or a connection that the peer closed, ends it
  -- badly.
  unfoldable pub handshake_loop : ℕ → Connection p → World p → Option HttpsResult → Option (Step p)
  handshake_loop zero conn w result = none
  handshake_loop (suc fuel) conn w result =
      let state = p.current_state conn.engine in
      elim (has state br_ssl_sendapp || has state br_ssl_recvapp) [
        | true ↦ some (record { ok = true; conn = conn; world = w; result = result })
        | false ↦ elim (drive_records p fuel conn w result) [
          | none ↦ none
          | some s ↦ elim (not s.ok || s.conn.closed) [
            | true ↦ some (record s { ok = false })
            | false ↦ handshake_loop fuel s.conn s.world s.result
          ]
        ]
      ]

  -- Giving back the socket and the block of a connection.
  unfoldable pub release : Option ℕ → World p → World p
  release sock w = free_block p (disconnect p sock w)

  unfoldable pub finish_open : Option (Step p) → Option Opened
  finish_open none = none
  finish_open (some s) =
      if s.ok
      then some (record { conn = some s.conn; world = s.world; result = set_ok 1 s.result })
      else some (record { conn = none; world = release s.conn.sock s.world; result = s.result })

  -- From the connected socket on: the trust anchors, the engine, and the handshake.
  unfoldable pub start_tls : ℕ → ℕ → List ℕ → World p → Option HttpsResult → Option Opened
  start_tls fuel sock name w result =
      let (ready, kept, store, net) = p.roots.init w.store w.net in
      let w' : World p = record w { net = net; store = store; blocks = w.blocks + kept } in
      let fresh = p.set_buffer (p.set_versions (p.init_full (p.roots.anchors store))) in
      let (valid, engine) = p.reset fresh name in
      if ready
      then if valid
        then finish_open (
            handshake_loop fuel (record { sock = some sock; engine = engine; closed = false }) w'
              result)
        else some (record {
          conn = none;
          world = release (some sock) w';
          result = set_tls_error (p.last_error engine) result;
        })
      else some (record { conn = none; world = release (some sock) w'; result = result })

  unfoldable pub connect_and_start :
      ℕ → List ℕ → ℕ → List ℕ → World p → Option HttpsResult → Option Opened
  connect_and_start fuel host port name w result =
      let c = connect_ipv4 p host port result w in
      elim (Connected.sock c) [
        | none ↦ some (record { conn = none; world = free_block p c.world; result = c.result })
        | some s ↦ start_tls fuel s name c.world c.result
      ]

  -- The pointers `host`, `sni_host` and `result` may be null; `has_out` tells of `out_conn`.
  unfoldable pub tls_open :
      ℕ
      → Option (List ℕ)
      → ℕ
      → Option (List ℕ)
      → Bool
      → Option HttpsResult
      → World p
      → Option Opened
  tls_open fuel none port sni_host has_out result w =
      some (record { conn = none; world = w; result = zero_result result })
  tls_open fuel (some host) port sni_host has_out result w =
      let zeroed = zero_result result in
      let (got, net) = p.heap_alloc w.net in
      if has_out
      then if got
        then connect_and_start fuel host port (sni_name sni_host host)
            (record w { net = net; blocks = w.blocks + 1 }) zeroed
        else some (record { conn = none; world = record w { net = net }; result = zeroed })
      else some (record { conn = none; world = w; result = zeroed })

  -- The loop of `wm_tls_close`, which sends what is pending and ends at the first failure.
  unfoldable pub close_loop : ℕ → Connection p → World p → Option (World p)
  close_loop zero conn w = none
  close_loop (suc fuel) conn w = elim (has (p.current_state conn.engine) br_ssl_sendrec) [
    | false ↦ some w
    | true ↦ elim (send_pending p fuel conn w none) [
      | none ↦ none
      | some s ↦ elim s.ok [ false ↦ some s.world | true ↦ close_loop fuel s.conn s.world ]
    ]
  ]

  unfoldable pub finish_close : Option ℕ → Option (World p) → Option (World p)
  finish_close sock none = none
  finish_close sock (some w) = some (release sock w)

  unfoldable pub tls_close : ℕ → Option (Connection p) → World p → Option (World p)
  tls_close fuel none w = some w
  tls_close fuel (some conn) w =
      if conn.closed
      then some (release conn.sock w)
      else finish_close conn.sock (close_loop fuel (record conn { engine = p.close conn.engine }) w)
