-- ===== src/Connection/Held.antt =====
-- What is held of the system while BearTLS/wm_https.c runs, as counts, and that the record pump and
-- the handshake leave it alone.
use bear_tls.Base.{
  some_inj, ℕ, zero, suc, ◌+◌, ◌≡◌, ◌≤◌, refl, ap, ◌∙◌, ◌||◌, not, Option, none, some, arith,
  if◌then◌else◌, ltb, Bool-cases, Option-cases, inl, inr,
}
use bear_tls.Connection.Platform.{
  Platform, World, Connection, HttpsResult, disconnect, has, br_ssl_sendapp, br_ssl_recvapp,
}
use bear_tls.Connection.Records.{Step, send_pending, recv_pending, drive_records, recv_chunk}
use bear_tls.Connection.Open.{handshake_loop, release}

module _ (p : Platform) where
  -- Uses of Winsock, open sockets, and blocks of the heap; `tables` of the blocks are those of the
  -- certificate store.
  pub record Counts : Type 0 where
    pub startups : ℕ
    pub sockets : ℕ
    pub blocks : ℕ
    pub tables : ℕ

  abbrev pub counts : World p → Counts
  counts w = record {
    startups = w.startups;
    sockets = w.sockets;
    blocks = w.blocks;
    tables = p.roots.tables w.store;
  }

  -- The same, and `kept` blocks more that the certificate store keeps.
  abbrev pub grown : ℕ → World p → Counts
  grown kept w = record {
    startups = w.startups;
    sockets = w.sockets;
    blocks = w.blocks + kept;
    tables = p.roots.tables w.store + kept;
  }

  -- The socket of a connection, and the counts.
  pub record Held : Type 0 where
    pub sock : Option ℕ
    pub startups : ℕ
    pub sockets : ℕ
    pub blocks : ℕ
    pub tables : ℕ

  abbrev pub held : Option ℕ → World p → Held
  held sock w = record {
    sock = sock;
    startups = w.startups;
    sockets = w.sockets;
    blocks = w.blocks;
    tables = p.roots.tables w.store;
  }

  pub send_pending-held :
      (fuel : ℕ) (conn : Connection p) (w : World p) (r : Option HttpsResult) (s : Step p)
      → send_pending p fuel conn w r ≡ some s
      → held s.conn.sock s.world ≡ held conn.sock w
  unfolding send_pending
  send_pending-held zero conn w r s e = cc
  send_pending-held (suc fuel) conn w r s e =
      let (wr, net) = p.send w.net conn.sock (p.sendrec_buf conn.engine) in
      let n : ℕ = elim wr [ none ↦ 0 | some k ↦ k ] in
      ground (
        arith,
        send_pending-held fuel (record conn { engine = p.sendrec_ack conn.engine n })
            (record w { net = net }) r s,
      )

  recv_pending-held :
      (conn : Connection p) (w : World p) (r : Option HttpsResult)
      → held (recv_pending p conn w r).conn.sock (recv_pending p conn w r).world ≡ held conn.sock w
  unfolding recv_pending
  recv_pending-held conn w r =
      let len = p.recvrec_len conn.engine in
      let want = if ltb len recv_chunk then len else recv_chunk in
      let (rd, net) = p.recv w.net conn.sock want in ground arith

  pub drive_records-held :
      (fuel : ℕ) (conn : Connection p) (w : World p) (r : Option HttpsResult) (s : Step p)
      → drive_records p fuel conn w r ≡ some s
      → held s.conn.sock s.world ≡ held conn.sock w
  unfolding drive_records
  drive_records-held fuel conn w r s e =
      ground (arith, send_pending-held fuel conn w r s, recv_pending-held conn w r)

  pub handshake_loop-held :
      (fuel : ℕ) (conn : Connection p) (w : World p) (r : Option HttpsResult) (s : Step p)
      → handshake_loop p fuel conn w r ≡ some s
      → held s.conn.sock s.world ≡ held conn.sock w
  unfolding handshake_loop
  handshake_loop-held zero conn w r s e = cc
  handshake_loop-held (suc fuel) conn w r s e =
      let state = p.current_state conn.engine in
      elim (Bool-cases (has state br_ssl_sendapp || has state br_ssl_recvapp)) [
        | inl ready ↦ let done = rw (handshake_loop, ready) at e in rw (← some_inj done) refl
        | inr waiting ↦ elim (Option-cases (drive_records p fuel conn w r)) [
          | inl stuck ↦ cc (rw (handshake_loop, waiting, stuck) at e)
          | inr (q, driven) ↦
              let kept = drive_records-held fuel conn w r q driven in
              elim (Bool-cases (not q.ok || q.conn.closed)) [
                | inl over ↦
                    let done = rw (handshake_loop, waiting, driven, over) at e in
                    rw (← some_inj done) kept
                | inr on ↦
                    handshake_loop-held fuel q.conn q.world q.result s
                      (rw (handshake_loop, waiting, driven, on) at e)
                    ∙ kept
              ]
        ]
      ]

  -- A connection holds one of each beyond `b`, and its socket.
  abbrev pub Holding : Counts → Option ℕ → World p → Type 0
  Holding b sock w' =
      (n : ℕ) × (held sock w' ≡ record {
        sock = some n;
        startups = b.startups + 1;
        sockets = b.sockets + 1;
        blocks = b.blocks + 1;
        tables = b.tables;
      })

  -- As much is held as `b` tells.
  abbrev pub Balanced : Counts → World p → Type 0
  Balanced b w' =
      (w'.startups ≡ b.startups)
      × (w'.sockets ≡ b.sockets)
      × (w'.blocks ≡ b.blocks)
      × (p.roots.tables w'.store ≡ b.tables)

  -- As much is held as in `w`, but for the blocks by which the certificate store grew.
  abbrev pub Restored : World p → World p → Type 0
  Restored w w' = (kept : ℕ) × (kept ≤ 2) × Balanced (grown kept w) w'

  pub release-Balanced :
      (b : Counts) (sock : Option ℕ) (w' : World p)
      → Holding b sock w'
      → Balanced b (release p sock w')
  unfolding release disconnect
  release-Balanced b none w' (n, e) = cc (ap (λ h. h.sock) e)
  release-Balanced b (some s) w' (n, e) =
      let startups : w'.startups ≡ b.startups + 1 = ap (λ h. h.startups) e in
      let sockets : w'.sockets ≡ b.sockets + 1 = ap (λ h. h.sockets) e in
      let blocks : w'.blocks ≡ b.blocks + 1 = ap (λ h. h.blocks) e in
      let tables : p.roots.tables w'.store ≡ b.tables = ap (λ h. h.tables) e in
      omega (arith, startups, sockets, blocks, tables)
