-- ===== src/Connection/Returns.antt =====
-- A whole exchange of BearTLS/wm_https.c returns: enough fuel, in the sizes of the request and of
-- the answer and in the work that the engine and its peer can have.
use bear_tls.Base.{
  some_inj, ℕ, ◌+◌, ◌*◌, ◌≤◌, ◌<◌, ◌≡◌, refl, ap, ◌∙◌, ◌⊎◌, true, false, Option, none, some, List,
  arith, leb, leb→lt, length, Bool-cases, Option-cases, inl, inr, store,
}
use bear_tls.Connection.Platform.{Platform, World, Connection, HttpsResult, zero_result}
use bear_tls.Connection.Connect.{Connected, connect_ipv4}
use bear_tls.Connection.Open.{Opened, finish_open, start_tls, connect_and_start, tls_open, sni_name}
use bear_tls.Connection.Transfer.{tls_write}
use bear_tls.Connection.Exchange.{
  Outcome, fault, returned, Exchanged, Received, close_failed, finish_exchange, receive_and_finish,
  exchange_on, opened_exchange, exchange_internal,
}
use bear_tls.Connection.Streams.{Streams}
use bear_tls.Connection.Response.{HoldsText}
use bear_tls.Connection.Answer.{exchange_internal-Answers}
use bear_tls.Connection.Progress.{Progress, left}
use bear_tls.Connection.Ends.{handshake_loop-Ends, tls_close_ends}
use bear_tls.Connection.Budget.{write_loop-Ends, receive_loop-Ends}

module _ (p : Platform) (g : Progress p) where
  abbrev Comes : Outcome (Exchanged p) → Type 0
  Comes o = (o ≡ fault) ⊎ ((x : Exchanged p) × (o ≡ returned x))

  finish_exchange-Comes :
      (fuel : ℕ) (r : Received p)
      → left p g r.conn r.world + g.farewell + 1 < fuel
      → Comes (finish_exchange p fuel r)
  unfolding finish_exchange
  finish_exchange-Comes fuel r enough =
      let (w, closed) = tls_close_ends p g fuel r.conn r.world enough in
      elim (Bool-cases r.failed) [
        | inl bad ↦ rw (finish_exchange, closed, bad) (inr (_, refl))
        | inr good ↦ rw (finish_exchange, closed, good) (inr (_, refl))
      ]

  receive_and_finish-Comes :
      (fuel size : ℕ) (cells : List ℕ) (conn : Connection p) (w : World p) (r : Option HttpsResult)
      → 1 < size
      → left p g conn w + size + g.farewell + 2 < fuel
      → Comes (receive_and_finish p fuel size cells conn w r)
  unfolding receive_and_finish
  receive_and_finish-Comes fuel size cells conn w r room enough =
      elim (receive_loop-Ends p g fuel size cells 0 conn w r (omega arith) (omega arith)) [
        | inl bad ↦ inl (rw (receive_and_finish, bad) refl)
        | inr (s, e, b) ↦
            rw (receive_and_finish, e) (finish_exchange-Comes fuel s (omega (arith, b)))
      ]

  exchange_on-Comes :
      (fuel : ℕ) (text : List ℕ) (size : ℕ) (cells : List ℕ) (conn : Connection p) (w : World p)
      (r : Option HttpsResult)
      → 1 < size
      → left p g conn w + g.cost * length text + length text + size + g.farewell + 2 < fuel
      → Comes (exchange_on p fuel text size cells conn w r)
  unfolding exchange_on close_failed tls_write
  exchange_on-Comes fuel text size cells conn w r room enough =
      let (s, sent, b) = write_loop-Ends p g fuel text 0 conn w (zero_result r) (omega arith) in
      elim (Bool-cases s.ok) [
        | inl good ↦
            rw (exchange_on, tls_write, sent, good)
              (receive_and_finish-Comes fuel size cells s.conn s.world s.result room
                (omega (arith, b)))
        | inr bad ↦
            let (w', closed) = tls_close_ends p g fuel s.conn s.world (omega (arith, b)) in
            rw (exchange_on, tls_write, sent, bad, close_failed, closed) (inr (_, refl))
      ]

  -- A call of `wm_tls_open` that came to an end, without a connection or with one that has no more
  -- work than a fresh one.
  abbrev OpenEnds : Option (Opened p) → Type 0
  OpenEnds o =
      (x : Opened p) × (o ≡ some x)
      × ((x.conn ≡ none)
          ⊎ ((c : Connection p) × (x.conn ≡ some c) × (left p g c x.world ≤ g.start)))

  start_tls-Ends :
      (fuel sock : ℕ) (name : List ℕ) (w : World p) (r : Option HttpsResult)
      → g.start + 1 < fuel
      → OpenEnds (start_tls p fuel sock name w r)
  unfolding start_tls finish_open
  start_tls-Ends fuel sock name w r enough =
      let (ready, kept, store, net) = p.roots.init w.store w.net in
      let w' : World p = record w { net = net; store = store; blocks = w.blocks + kept } in
      let anchors = p.roots.anchors store in
      let fresh = p.set_buffer (p.set_versions (p.init_full anchors)) in
      let (valid, engine) = p.reset fresh name in
      let conn : Connection p = record { sock = some sock; engine = engine; closed = false } in
      let few = g.work-reset anchors net name in
      elim (Bool-cases ready) [
        | inr not_ready ↦ rw (start_tls, not_ready) (_, refl, inl refl)
        | inl on ↦ elim (Bool-cases valid) [
          | inr invalid ↦ rw (start_tls, on, invalid) (_, refl, inl refl)
          | inl fine ↦
              let (s, shaken, b) = handshake_loop-Ends p g fuel conn w' r (omega (arith, few)) in
              elim (Bool-cases s.ok) [
                | inl good ↦
                    rw (start_tls, on, fine, shaken, finish_open, good)
                      (_, refl, inr (s.conn, refl, omega (arith, b, few)))
                | inr bad ↦ rw (start_tls, on, fine, shaken, finish_open, bad) (_, refl, inl refl)
              ]
        ]
      ]

  tls_open-Ends :
      (fuel : ℕ) (host : List ℕ) (port : ℕ) (sni : Option (List ℕ)) (r : Option HttpsResult)
      (w : World p)
      → g.start + 1 < fuel
      → OpenEnds (tls_open p fuel (some host) port sni true r w)
  unfolding tls_open connect_and_start
  tls_open-Ends fuel host port sni r w enough =
      let (got, net) = p.heap_alloc w.net in
      elim (Bool-cases got) [
        | inr no_block ↦ rw (tls_open, no_block) (_, refl, inl refl)
        | inl block ↦
            let w1 : World p = record w { net = net; blocks = w.blocks + 1 } in
            let c = connect_ipv4 p host port (zero_result r) w1 in
            elim (Option-cases (Connected.sock c)) [
              | inl no_socket ↦
                  rw (tls_open, block, connect_and_start, no_socket) (_, refl, inl refl)
              | inr (s, there) ↦
                  rw (tls_open, block, connect_and_start, there)
                    (start_tls-Ends fuel s (sni_name sni host) c.world c.result enough)
            ]
      ]

  opened_exchange-Comes :
      (fuel : ℕ) (text : List ℕ) (size : ℕ) (cells : List ℕ) (o : Option (Opened p))
      → 1 < size
      → OpenEnds o
      → g.start + g.cost * length text + length text + size + g.farewell + 2 < fuel
      → Comes (opened_exchange p fuel text size cells o)
  unfolding opened_exchange
  opened_exchange-Comes fuel text size cells none room (x, e, how) enough = cc
  opened_exchange-Comes fuel text size cells (some o) room (x, e, how) enough =
      let same : o ≡ x = some_inj e in
      elim how [
        | inl no_conn ↦ rw (opened_exchange, ap Opened.conn same ∙ no_conn) (inr (_, refl))
        | inr (c, there, few) ↦
            rw (opened_exchange, ap Opened.conn same ∙ there)
              (exchange_on-Comes fuel text size cells c o.world o.result room
                (rw same (omega (arith, few))))
      ]

  exchange_internal-Comes :
      (fuel : ℕ) (host : Option (List ℕ)) (port : ℕ) (sni : Option (List ℕ)) (text : List ℕ)
      (response : List ℕ) (size : ℕ) (w : World p) (r : Option HttpsResult)
      → g.start + g.cost * length text + length text + size + g.farewell + 2 < fuel
      → Comes (exchange_internal p fuel host port sni (some text) response size w r)
  unfolding exchange_internal
  exchange_internal-Comes fuel none port sni text response size w r enough = inr (_, refl)
  exchange_internal-Comes fuel (some host) port sni text response size w r enough =
      elim (Bool-cases (leb size 1)) [
        | inl small ↦ rw (exchange_internal, small) (inr (_, refl))
        | inr large ↦ elim (Option-cases (store response 0 0)) [
          | inl bad ↦ inl (rw (exchange_internal, large, bad) refl)
          | inr (cells, stored) ↦
              rw (exchange_internal, large, stored)
                (opened_exchange-Comes fuel text size cells
                  (tls_open p fuel (some host) port sni true (zero_result r) w) (leb→lt _ _ large)
                  (tls_open-Ends fuel host port sni (zero_result r) w (omega arith)) enough)
        ]
      ]

  -- For an engine with its streams and with its work bounded, and where the array has `size`
  -- cells: fuel above the sum of the work of a fresh engine, the cost and the length of the
  -- request, the size of the array, the work of a close and 2 is enough for the exchange to
  -- return, and the array keeps its size. It returns 0, or it returns 1 and the array begins with
  -- a text that is not empty and a NUL.
  pub exchange_internal_returns :
      (v : Streams p) (fuel : ℕ) (host : Option (List ℕ)) (port : ℕ) (sni : Option (List ℕ))
      (text response : List ℕ) (size : ℕ) (w : World p) (r : Option HttpsResult)
      → length response ≡ size
      → g.start + g.cost * length text + length text + size + g.farewell + 2 < fuel
      → (x : Exchanged p) × (exchange_internal p fuel host port sni (some text) response size w r
          ≡ returned x)
        × (length x.response ≡ size)
        × ((x.ok ≡ 0)
            ⊎ ((x.ok ≡ 1)
                × (answer : List ℕ) × HoldsText size answer x.response
                × (0 < length answer)))
  exchange_internal_returns v fuel host port sni text response size w r l enough =
      elim (exchange_internal-Answers p v fuel host port sni (some text) response size w r l) [
        | inr answered ↦ answered
        | inl dry ↦
            elim (exchange_internal-Comes fuel host port sni text response size w r enough) [
              | inl bad ↦ cc
              | inr (x, e) ↦ cc
            ]
      ]
