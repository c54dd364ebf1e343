-- ===== src/Connection/Balance.antt =====
-- What BearTLS/wm_https.c holds of the system: uses of Winsock, sockets and blocks of the heap are
-- given back on every path.
use bear_tls.Base.{
  some_inj, ℕ, ◌+◌, ◌≡◌, ◌≤◌, refl, ap, ◌∙◌, ◌⊎◌, Bool, false, Option, none, some, List, arith,
  Bool-cases, Option-cases, inl, inr,
}
use bear_tls.Connection.Platform.{Platform, World, Connection, HttpsResult, zero_result, disconnect}
use bear_tls.Connection.Connect.{Connected, connect_ipv4, connect_socket, resolve}
use bear_tls.Connection.Records.{Step}
use bear_tls.Connection.Open.{
  Opened, handshake_loop, finish_open, start_tls, connect_and_start, tls_open, sni_name,
}
use bear_tls.Connection.Held.{
  Counts, counts, grown, Held, Holding, Balanced, handshake_loop-held, release-Balanced,
}

module _ (p : Platform) where
  -- What `connect_ipv4` leaves: nothing more is held, or the socket is and Winsock is in use.
  abbrev pub Joined : World p → Connected p → Type 0
  Joined w c =
      ((c.sock ≡ none) × Balanced p (counts p w) c.world)
      ⊎ ((n : ℕ) × (c.sock ≡ some n)
          × (c.world.startups ≡ w.startups + 1)
          × (c.world.sockets ≡ w.sockets + 1)
          × (c.world.blocks ≡ w.blocks)
          × (p.roots.tables c.world.store ≡ p.roots.tables w.store))

  connect_socket-Joined :
      (s port : ℕ) (host : List ℕ) (r : Option HttpsResult) (net : p.Net) (w : World p)
      → Joined w (
          connect_socket p s port host r
            (record w { net = net; startups = w.startups + 1; sockets = w.sockets + 1 }))
  unfolding connect_socket disconnect
  connect_socket-Joined s port host r net w =
      let (found, net1) = resolve p net host in
      elim (Option-cases found) [
        | inl unknown ↦ rw (connect_socket, unknown) (inl (refl, omega arith))
        | inr (addr, known) ↦
            let (joined, net2) = p.connect net1 s addr port in
            elim (Bool-cases joined) [
              | inl on_it ↦
                  rw (connect_socket, known, on_it) (inr (s, refl, refl, refl, refl, refl))
              | inr off_it ↦ rw (connect_socket, known, off_it) (inl (refl, omega arith))
            ]
      ]

  connect_ipv4-Joined :
      (host : List ℕ) (port : ℕ) (r : Option HttpsResult) (w : World p)
      → Joined w (connect_ipv4 p host port r w)
  unfolding connect_ipv4
  connect_ipv4-Joined host port r w =
      let (started, net1) = p.startup w.net in
      let (opened, net2) = p.socket net1 in
      elim (Bool-cases started) [
        | inr off_it ↦ rw (connect_ipv4, off_it) (inl (refl, omega arith))
        | inl on_it ↦ elim (Option-cases opened) [
          | inl no_socket ↦ rw (connect_ipv4, on_it, no_socket) (inl (refl, omega arith))
          | inr (s, there) ↦
              rw (connect_ipv4, on_it, there) (connect_socket-Joined s port host _ net2 w)
        ]
      ]

  -- What an attempt to open ends with: no connection, and nothing more is held than `b` tells; or a
  -- connection.
  abbrev pub Attempted : Counts p → Opened p → Type 0
  Attempted b o =
      ((o.conn ≡ none) × Balanced p b o.world)
      ⊎ ((c : Connection p) × (o.conn ≡ some c) × Holding p b c.sock o.world)

  -- The same, where the certificate store may have grown.
  abbrev pub Settled : World p → Opened p → Type 0
  Settled w o = (kept : ℕ) × (kept ≤ 2) × Attempted (grown p kept w) o

  finish_open-Attempted :
      (b : Counts p) (s : Step p) (o : Opened p)
      → Holding p b s.conn.sock s.world
      → finish_open p (some s) ≡ some o
      → Attempted b o
  unfolding finish_open
  finish_open-Attempted b s o holding e = elim (Bool-cases s.ok) [
    | inl good ↦
        let done = rw (finish_open, good) at e in rw (← some_inj done) (inr (s.conn, refl, holding))
    | inr bad ↦
        let done = rw (finish_open, bad) at e in
        rw (← some_inj done) (inl (refl, release-Balanced p b s.conn.sock s.world holding))
  ]

  -- The blocks that the certificate store takes are its tables.
  grown-Holding :
      (w w1 : World p) (sock : Option ℕ) (store : p.roots.Store) (net : p.Net) (kept : ℕ)
      → Holding p (counts p w) sock w1
      → p.roots.tables store ≡ p.roots.tables w1.store + kept
      → Holding p
          (grown p kept w)
          sock
          (record w1 { net = net; store = store; blocks = w1.blocks + kept })
  grown-Holding w w1 sock store net kept (n, e) grew =
      let grow : Held p → Held p =
        λ h. record h { blocks = h.blocks + kept; tables = h.tables + kept } in
      let order : w.blocks + kept + 1 ≡ w.blocks + 1 + kept = omega arith in
      (n, rw (grew, order) (ap grow e))

  start_tls-Settled :
      (fuel sock : ℕ) (name : List ℕ) (w w1 : World p) (r : Option HttpsResult) (o : Opened p)
      → Holding p (counts p w) (some sock) w1
      → start_tls p fuel sock name w1 r ≡ some o
      → Settled w o
  unfolding start_tls finish_open
  start_tls-Settled fuel sock name w w1 r o held_before e =
      let (ready, kept, store, net) = p.roots.init w1.store w1.net in
      let w2 : World p = record w1 { net = net; store = store; blocks = w1.blocks + kept } in
      let fresh = p.set_buffer (p.set_versions (p.init_full (p.roots.anchors store))) in
      let (valid, engine) = p.reset fresh name in
      let conn : Connection p = record { sock = some sock; engine = engine; closed = false } in
      let b = grown p kept w in
      let holding =
        grown-Holding w w1 (some sock) store net kept held_before
          (p.roots.tables-init w1.store w1.net) in
      let few : kept ≤ 2 =
        omega (arith, p.roots.tables-init w1.store w1.net, p.roots.tables_bound store) in
      elim (Bool-cases ready) [
        | inr not_ready ↦
            let done = rw (start_tls, not_ready) at e in
            rw (← some_inj done)
              (kept, few, inl (refl, release-Balanced p b (some sock) w2 holding))
        | inl on ↦ elim (Bool-cases valid) [
          | inr invalid ↦
              let done = rw (start_tls, on, invalid) at e in
              rw (← some_inj done)
                (kept, few, inl (refl, release-Balanced p b (some sock) w2 holding))
          | inl fine ↦
              let ended = rw (start_tls, on, fine) at e in
              elim (Option-cases (handshake_loop p fuel conn w2 r)) [
                | inl stuck ↦ cc (rw (stuck, finish_open) at ended)
                | inr (s, shaken) ↦ (
                  kept,
                  few,
                  finish_open-Attempted b s o
                      (holding.0, handshake_loop-held p fuel conn w2 r s shaken ∙ holding.1)
                      (rw shaken at ended),
                )
              ]
        ]
      ]

  connect_and_start-Settled :
      (fuel port : ℕ) (host name : List ℕ) (w : World p) (net : p.Net) (r : Option HttpsResult)
      (o : Opened p)
      → connect_and_start p fuel host port name (record w { net = net; blocks = w.blocks + 1 }) r
        ≡ some o
      → Settled w o
  unfolding connect_and_start
  connect_and_start-Settled fuel port host name w net r o e =
      let w1 : World p = record w { net = net; blocks = w.blocks + 1 } in
      let c = connect_ipv4 p host port r w1 in
      elim (connect_ipv4-Joined host port r w1) [
        | inl (no_socket, balanced) ↦
            let done = rw (connect_and_start, no_socket) at e in
            rw (← some_inj done) (0, omega arith, inl (refl, omega (arith, balanced)))
        | inr (n, there, a, b, k, t) ↦
            start_tls-Settled fuel n name w c.world c.result o (n, rw (a, b, k, t) refl)
              (rw (connect_and_start, there) at e)
      ]

  -- A call of `wm_tls_open` that returns has either given back all that it took, and there is no
  -- connection; or there is one, with a socket, and exactly one use of Winsock, one socket and one
  -- block are held more than before. In both cases the heap has, beside that, just the blocks more
  -- by which the tables of the certificate store grew, at most two.
  pub tls_open-Settled :
      (fuel : ℕ) (host : Option (List ℕ)) (port : ℕ) (sni : Option (List ℕ)) (has_out : Bool)
      (r : Option HttpsResult) (w : World p) (o : Opened p)
      → tls_open p fuel host port sni has_out r w ≡ some o
      → Settled w o
  unfolding tls_open
  tls_open-Settled fuel none port sni has_out r w o e =
      rw (← some_inj e) (0, omega arith, inl (refl, omega arith))
  tls_open-Settled fuel (some host) port sni has_out r w o e =
      let (got, net) = p.heap_alloc w.net in
      elim (Bool-cases has_out) [
        | inr off_it ↦
            let done = rw (tls_open, off_it) at e in
            rw (← some_inj done) (0, omega arith, inl (refl, omega arith))
        | inl on_it ↦ elim (Bool-cases got) [
          | inr no_block ↦
              let done = rw (tls_open, on_it, no_block) at e in
              rw (← some_inj done) (0, omega arith, inl (refl, omega arith))
          | inl block ↦
              connect_and_start-Settled fuel port host (sni_name sni host) w net (zero_result r) o
                (rw (tls_open, on_it, block) at e)
        ]
      ]
