-- ===== src/Connection/Leaks.antt =====
-- A whole exchange of BearTLS/wm_https.c gives back what it took of the system, on every path.
use bear_tls.Base.{
  arith, some_inj, ℕ, zero, suc, ◌+◌, ◌-◌, ◌≡◌, refl, ap, ◌∙◌, ◌==◌, ◌||◌, true, false, not, Option,
  none, some, List, leb, length, Bool-cases, Option-cases, inl, inr, store,
}
use bear_tls.Connection.Platform.{
  Platform, World, Connection, HttpsResult, zero_result, has, br_ssl_sendrec,
}
use bear_tls.Connection.Records.{send_pending}
use bear_tls.Connection.Open.{Opened, tls_open, close_loop, finish_close, tls_close}
use bear_tls.Connection.Transfer.{tls_write, tls_read}
use bear_tls.Connection.Exchange.{
  returned_inj, Outcome, fault, out_of_fuel, returned, Exchanged, Received, store_read,
  receive_loop, close_failed, finish_exchange, receive_and_finish, exchange_on, opened_exchange,
  exchange_internal,
}
use bear_tls.Connection.Held.{
  Held, held, Counts, grown, Holding, Balanced, Restored, send_pending-held, release-Balanced,
}
use bear_tls.Connection.Balance.{Attempted, tls_open-Settled}
use bear_tls.Connection.Kept.{write_loop-held, tls_read-held}

module _ (p : Platform) where
  close_loop-held :
      (fuel : ℕ) (conn : Connection p) (w w' : World p) (sock : Option ℕ)
      → close_loop p fuel conn w ≡ some w'
      → held p sock w' ≡ held p sock w
  unfolding close_loop
  close_loop-held zero conn w w' sock e = cc
  close_loop-held (suc fuel) conn w w' sock e =
      elim (Bool-cases (has (p.current_state conn.engine) br_ssl_sendrec)) [
        | inr idle ↦ let done = rw (close_loop, idle) at e in rw (← some_inj done) refl
        | inl pending ↦ elim (Option-cases (send_pending p fuel conn w none)) [
          | inl stuck ↦ cc (rw (close_loop, pending, stuck) at e)
          | inr (s, sent) ↦
              let kept = send_pending-held p fuel conn w none s sent in
              let at_sock : Held p → Held p = λ h. record h { sock = sock } in
              let same : held p sock s.world ≡ held p sock w = ap at_sock kept in
              elim (Bool-cases s.ok) [
                | inr bad ↦
                    let done = rw (close_loop, pending, sent, bad) at e in rw (← some_inj done) same
                | inl good ↦
                    close_loop-held fuel s.conn s.world w' sock
                      (rw (close_loop, pending, sent, good) at e)
                    ∙ same
              ]
        ]
      ]

  -- A call of `wm_tls_close` that returns gives back all that its connection holds beyond the
  -- counts `b` of uses of Winsock, sockets, blocks and tables.
  pub tls_close-Balanced :
      (fuel : ℕ) (conn : Connection p) (b : Counts p) (w1 w2 : World p)
      → Holding p b conn.sock w1
      → tls_close p fuel (some conn) w1 ≡ some w2
      → Balanced p b w2
  unfolding tls_close finish_close
  tls_close-Balanced fuel conn b w1 w2 (n, holding) e = elim (Bool-cases conn.closed) [
    | inl closed ↦
        let done = rw (tls_close, closed) at e in
        rw (← some_inj done) (release-Balanced p b conn.sock w1 (n, holding))
    | inr still_on ↦
        let ended = rw (tls_close, still_on) at e in
        let closing : Connection p = record {
          sock = conn.sock;
          engine = p.close conn.engine;
          closed = false;
        } in
        elim (Option-cases (close_loop p fuel closing w1)) [
          | inl stuck ↦ cc (rw (stuck, finish_close) at ended)
          | inr (w3, looped) ↦
              let done = rw (looped, finish_close) at ended in
              rw (← some_inj done) (
                release-Balanced p b conn.sock w3
                  (n, close_loop-held fuel closing w1 w3 conn.sock looped ∙ holding))
        ]
  ]

  receive_loop-held :
      (fuel size : ℕ) (response : List ℕ) (count : ℕ) (conn : Connection p) (w : World p)
      (r : Option HttpsResult) (s : Received p)
      → receive_loop p fuel size response count conn w r ≡ returned s
      → held p s.conn.sock s.world ≡ held p conn.sock w
  unfolding receive_loop
  receive_loop-held zero size response count conn w r s e = cc
  receive_loop-held (suc fuel) size response count conn w r s e =
      elim (Option-cases (tls_read p fuel conn true (size - count - 1) w r)) [
        | inl stuck ↦ cc (rw (receive_loop, stuck) at e)
        | inr (q, got) ↦
            let kept = tls_read-held p fuel conn true (size - count - 1) w r q got in
            elim (Bool-cases (not q.ok || length q.bytes == 0)) [
              | inl over ↦
                  let done = rw (receive_loop, got, over) at e in rw (← returned_inj done) kept
              | inr more ↦ elim (Option-cases (store_read p response count q.bytes)) [
                | inl bad ↦ cc (rw (receive_loop, got, more, bad) at e)
                | inr (cells, stored) ↦
                    elim (Bool-cases (leb (size - 1) (count + length q.bytes))) [
                      | inl full ↦
                          let done = rw (receive_loop, got, more, stored, full) at e in
                          rw (← returned_inj done) kept
                      | inr room ↦
                          receive_loop-held fuel size cells (count + length q.bytes) q.conn q.world
                            q.result s (rw (receive_loop, got, more, stored, room) at e)
                          ∙ kept
                    ]
              ]
            ]
      ]

  finish_exchange-Balanced :
      (fuel : ℕ) (r : Received p) (b : Counts p) (x : Exchanged p)
      → Holding p b r.conn.sock r.world
      → finish_exchange p fuel r ≡ returned x
      → Balanced p b x.world
  unfolding finish_exchange
  finish_exchange-Balanced fuel r b x holding e =
      elim (Option-cases (tls_close p fuel (some r.conn) r.world)) [
        | inl stuck ↦ cc (rw (finish_exchange, stuck) at e)
        | inr (w2, closed) ↦
            let balanced = tls_close-Balanced fuel r.conn b r.world w2 holding closed in
            elim (Bool-cases r.failed) [
              | inl bad ↦
                  let done = rw (finish_exchange, closed, bad) at e in
                  rw (← returned_inj done) balanced
              | inr good ↦
                  let done = rw (finish_exchange, closed, good) at e in
                  rw (← returned_inj done) balanced
            ]
      ]

  receive_and_finish-Balanced :
      (fuel size : ℕ) (response : List ℕ) (conn : Connection p) (b : Counts p) (w1 : World p)
      (r : Option HttpsResult) (x : Exchanged p)
      → Holding p b conn.sock w1
      → receive_and_finish p fuel size response conn w1 r ≡ returned x
      → Balanced p b x.world
  unfolding receive_and_finish
  receive_and_finish-Balanced fuel size response conn b w1 r x (n, holding) e =
      go (receive_loop p fuel size response 0 conn w1 r) refl
    where
      go :
          (o : Outcome (Received p))
          → receive_loop p fuel size response 0 conn w1 r ≡ o
          → Balanced p b x.world
      go fault looped = cc (rw (receive_and_finish, looped) at e)
      go out_of_fuel looped = cc (rw (receive_and_finish, looped) at e)
      go (returned s) looped =
          finish_exchange-Balanced fuel s b x
            (n, receive_loop-held fuel size response 0 conn w1 r s looped ∙ holding)
            (rw (receive_and_finish, looped) at e)

  exchange_on-Balanced :
      (fuel : ℕ) (text : List ℕ) (size : ℕ) (response : List ℕ) (conn : Connection p) (b : Counts p)
      (w1 : World p) (r : Option HttpsResult) (x : Exchanged p)
      → Holding p b conn.sock w1
      → exchange_on p fuel text size response conn w1 r ≡ returned x
      → Balanced p b x.world
  unfolding exchange_on tls_write close_failed
  exchange_on-Balanced fuel text size response conn b w1 r x (n, holding) e =
      elim (Option-cases (tls_write p fuel conn (some text) w1 r)) [
        | inl stuck ↦ cc (rw (exchange_on, stuck) at e)
        | inr (s, sent) ↦
            let kept = write_loop-held p fuel text 0 conn w1 (zero_result r) s sent in
            let still : Holding p b s.conn.sock s.world = (n, kept ∙ holding) in
            elim (Bool-cases s.ok) [
              | inl good ↦
                  receive_and_finish-Balanced fuel size response s.conn b s.world s.result x still
                    (rw (exchange_on, sent, good) at e)
              | inr bad ↦
                  let ended = rw (exchange_on, sent, bad) at e in
                  elim (Option-cases (tls_close p fuel (some s.conn) s.world)) [
                    | inl stuck ↦ cc (rw (close_failed, stuck) at ended)
                    | inr (w2, closed) ↦
                        let done = rw (close_failed, closed) at ended in
                        rw (← returned_inj done)
                          (tls_close-Balanced fuel s.conn b s.world w2 still closed)
                  ]
            ]
      ]

  opened_exchange-Balanced :
      (fuel : ℕ) (text : List ℕ) (size : ℕ) (response : List ℕ) (o : Opened p) (b : Counts p)
      (x : Exchanged p)
      → Attempted p b o
      → opened_exchange p fuel text size response (some o) ≡ returned x
      → Balanced p b x.world
  unfolding opened_exchange
  opened_exchange-Balanced fuel text size response o b x ended e = elim ended [
    | inl (no_conn, balanced) ↦
        let done = rw (opened_exchange, no_conn) at e in rw (← returned_inj done) balanced
    | inr (c, there, holding) ↦
        exchange_on-Balanced fuel text size response c b o.world o.result x holding
          (rw (opened_exchange, there) at e)
  ]

  -- An exchange that returns leaves as many uses of Winsock and open sockets as there were before
  -- it, however it ended, and as many allocated blocks, but for those by which the tables of the
  -- certificate store grew, at most two.
  pub exchange_internal-Balanced :
      (fuel : ℕ) (host : Option (List ℕ)) (port : ℕ) (sni text : Option (List ℕ))
      (response : List ℕ) (size : ℕ) (w : World p) (r : Option HttpsResult) (x : Exchanged p)
      → exchange_internal p fuel host port sni text response size w r ≡ returned x
      → Restored p w x.world
  unfolding exchange_internal opened_exchange
  exchange_internal-Balanced fuel none port sni text response size w r x e =
      rw (← returned_inj e) (0, omega arith, omega arith)
  exchange_internal-Balanced fuel (some host) port sni none response size w r x e =
      rw (← returned_inj e) (0, omega arith, omega arith)
  exchange_internal-Balanced fuel (some host) port sni (some text) response size w r x e =
      let zeroed = zero_result r in
      elim (Bool-cases (leb size 1)) [
        | inl small ↦
            let done = rw (exchange_internal, small) at e in
            rw (← returned_inj done) (0, omega arith, omega arith)
        | inr large ↦ elim (Option-cases (store response 0 0)) [
          | inl bad ↦ cc (rw (exchange_internal, large, bad) at e)
          | inr (cells, stored) ↦
              elim (Option-cases (tls_open p fuel (some host) port sni true zeroed w)) [
                | inl stuck ↦
                    cc (rw (exchange_internal, large, stored, stuck, opened_exchange) at e)
                | inr (o, opened) ↦
                    let (kept, few, ended) =
                      tls_open-Settled p fuel (some host) port sni true zeroed w o opened in
                    (
                      kept,
                      few,
                      opened_exchange-Balanced fuel text size cells o (grown p kept w) x ended
                          (rw (exchange_internal, large, stored, opened) at e),
                    )
              ]
        ]
      ]
