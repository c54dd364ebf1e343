-- ===== src/Connection/Agreement.antt =====
-- The return value of an exchange of BearTLS/wm_https.c and the field `ok` of its result agree.
use bear_tls.Base.{
  some_inj, ℕ, zero, suc, ◌+◌, ◌-◌, ◌≡◌, refl, ap, ◌∙◌, ◌==◌, ◌||◌, ◌⊎◌, Bool, true, false, not,
  Option, none, some, List, arith, if◌then◌else◌, ltb, leb, length, Bool-cases, Option-cases, inl,
  inr, store,
}
use bear_tls.Connection.Platform.{
  Platform, World, Connection, HttpsResult, zero_result, set_wsa_error, set_ok, set_http_bytes,
}
use bear_tls.Connection.Connect.{Connected, connect_ipv4, connect_socket}
use bear_tls.Connection.Open.{
  Opened, handshake_loop, finish_open, start_tls, connect_and_start, tls_open, tls_close, sni_name,
}
use bear_tls.Connection.Transfer.{tls_write, tls_read}
use bear_tls.Connection.Exchange.{
  returned_inj, Outcome, fault, out_of_fuel, returned, Exchanged, Received, store_read,
  receive_loop, close_failed, finish_exchange, receive_and_finish, exchange_on, opened_exchange,
  exchange_internal,
}
use bear_tls.Connection.Fields.{
  ok_of, ok_of-zero_result, set_tls_error-ok_of, handshake_loop-ok_of, write_loop-ok_of,
  tls_read-ok_of,
}

set_wsa_error-ok_of : (r : Option HttpsResult) (v : ℕ) → ok_of (set_wsa_error v r) ≡ ok_of r
set_wsa_error-ok_of none v = refl
set_wsa_error-ok_of (some r) v = refl

-- A result that is there says `n`.
abbrev pub Says : ℕ → Option HttpsResult → Type 0
Says n r = (r ≡ none) ⊎ (ok_of r ≡ n)

told : (count ok : ℕ) (r : Option HttpsResult) → Says ok (set_http_bytes count (set_ok ok r))
told count ok none = inl refl
told count ok (some r) = inr refl

not-true : (b : Bool) → not b ≡ true → b ≡ false
not-true true e = cc
not-true false e = refl

module _ (p : Platform) where
  connect_ipv4-ok_of :
      (host : List ℕ) (port : ℕ) (r : Option HttpsResult) (w : World p)
      → ok_of (connect_ipv4 p host port r w).result ≡ ok_of r
  unfolding connect_ipv4 connect_socket
  connect_ipv4-ok_of host port none w = ground arith
  connect_ipv4-ok_of host port (some r) w = ground arith

  start_tls-ok_of :
      (fuel sock : ℕ) (name : List ℕ) (w : World p) (r : Option HttpsResult) (o : Opened p)
      → ok_of r ≡ 0
      → start_tls p fuel sock name w r ≡ some o
      → o.conn ≡ none
      → ok_of o.result ≡ 0
  unfolding start_tls finish_open
  start_tls-ok_of fuel sock name w r o z e bad =
      let (ready, kept, store, net) = p.roots.init w.store w.net in
      let w' : World p = record w { net = net; store = store; blocks = w.blocks + kept } in
      let fresh = p.set_buffer (p.set_versions (p.init_full (p.roots.anchors store))) in
      let (valid, engine) = p.reset fresh name in
      let conn : Connection p = record { sock = some sock; engine = engine; closed = false } in
      elim (Bool-cases ready) [
        | inr not_ready ↦ let done = rw (start_tls, not_ready) at e in rw (← some_inj done) z
        | inl on ↦ elim (Bool-cases valid) [
          | inr invalid ↦
              let done = rw (start_tls, on, invalid) at e in
              rw (← some_inj done) (set_tls_error-ok_of r _ ∙ z)
          | inl fine ↦
              let ended = rw (start_tls, on, fine) at e in
              elim (Option-cases (handshake_loop p fuel conn w' r)) [
                | inl stuck ↦ cc (rw (stuck, finish_open) at ended)
                | inr (s, shaken) ↦
                    let kept = handshake_loop-ok_of p fuel conn w' r s shaken ∙ z in
                    elim (Bool-cases s.ok) [
                      | inl good ↦
                          let done = some_inj (rw (shaken, finish_open, good) at ended) in
                          cc (ap Opened.conn done)
                      | inr failed ↦
                          let done = rw (shaken, finish_open, failed) at ended in
                          rw (← some_inj done) kept
                    ]
              ]
        ]
      ]

  tls_open-ok_of :
      (fuel : ℕ) (host : List ℕ) (port : ℕ) (sni : Option (List ℕ)) (r : Option HttpsResult)
      (w : World p) (o : Opened p)
      → tls_open p fuel (some host) port sni true r w ≡ some o
      → o.conn ≡ none
      → ok_of o.result ≡ 0
  unfolding tls_open connect_and_start
  tls_open-ok_of fuel host port sni r w o e bad =
      let (got, net) = p.heap_alloc w.net in
      elim (Bool-cases got) [
        | inr no_block ↦
            let done = rw (tls_open, no_block) at e in rw (← some_inj done) (ok_of-zero_result r)
        | inl block ↦
            let w1 : World p = record w { net = net; blocks = w.blocks + 1 } in
            let c = connect_ipv4 p host port (zero_result r) w1 in
            let z = connect_ipv4-ok_of host port (zero_result r) w1 ∙ ok_of-zero_result r in
            elim (Option-cases (Connected.sock c)) [
              | inl no_socket ↦
                  let done = rw (tls_open, block, connect_and_start, no_socket) at e in
                  rw (← some_inj done) z
              | inr (s, there) ↦
                  start_tls-ok_of fuel s (sni_name sni host) c.world c.result o z
                    (rw (tls_open, block, connect_and_start, there) at e) bad
            ]
      ]

  receive_loop-ok_of :
      (fuel size : ℕ) (cells : List ℕ) (count : ℕ) (conn : Connection p) (w : World p)
      (r : Option HttpsResult) (s : Received p)
      → receive_loop p fuel size cells count conn w r ≡ returned s
      → s.failed ≡ true
      → ok_of s.result ≡ 0
  unfolding receive_loop
  receive_loop-ok_of zero size cells count conn w r s e bad = cc
  receive_loop-ok_of (suc fuel) size cells count conn w r s e bad =
      elim (Option-cases (tls_read p fuel conn true (size - count - 1) w r)) [
        | inl stuck ↦ cc (rw (receive_loop, stuck) at e)
        | inr (q, got) ↦ elim (Bool-cases (not q.ok || length q.bytes == 0)) [
          | inl over ↦
              let done = returned_inj (rw (receive_loop, got, over) at e) in
              let failed : q.ok ≡ false = not-true q.ok (ap Received.failed done ∙ bad) in
              rw (← done) (tls_read-ok_of p fuel conn true (size - count - 1) w r q got failed)
          | inr more ↦ elim (Option-cases (store_read p cells count q.bytes)) [
            | inl faulty ↦ cc (rw (receive_loop, got, more, faulty) at e)
            | inr (cells', stored) ↦ elim (Bool-cases (leb (size - 1) (count + length q.bytes))) [
              | inl full ↦
                  let done = returned_inj (rw (receive_loop, got, more, stored, full) at e) in
                  cc (ap Received.failed done)
              | inr room ↦
                  receive_loop-ok_of fuel size cells' (count + length q.bytes) q.conn q.world
                    q.result s (rw (receive_loop, got, more, stored, room) at e) bad
            ]
          ]
        ]
      ]

  finish_exchange-Says :
      (fuel : ℕ) (r : Received p) (x : Exchanged p)
      → (r.failed ≡ true → ok_of r.result ≡ 0)
      → finish_exchange p fuel r ≡ returned x
      → Says x.ok x.result
  unfolding finish_exchange
  finish_exchange-Says fuel r x zeroed e =
      elim (Option-cases (tls_close p fuel (some r.conn) r.world)) [
        | inl stuck ↦ cc (rw (finish_exchange, stuck) at e)
        | inr (w, closed) ↦ elim (Bool-cases r.failed) [
          | inl bad ↦
              let done = rw (finish_exchange, closed, bad) at e in
              rw (← returned_inj done) (inr (zeroed bad))
          | inr good ↦
              let done = rw (finish_exchange, closed, good) at e in
              rw (← returned_inj done) (told r.count (if ltb 0 r.count then 1 else 0) r.result)
        ]
      ]

  receive_and_finish-Says :
      (fuel size : ℕ) (cells : List ℕ) (conn : Connection p) (w : World p) (r : Option HttpsResult)
      (x : Exchanged p)
      → receive_and_finish p fuel size cells conn w r ≡ returned x
      → Says x.ok x.result
  unfolding receive_and_finish
  receive_and_finish-Says fuel size cells conn w r x e =
      go (receive_loop p fuel size cells 0 conn w r) refl
    where
      go :
          (o : Outcome (Received p))
          → receive_loop p fuel size cells 0 conn w r ≡ o
          → Says x.ok x.result
      go fault looped = cc (rw (receive_and_finish, looped) at e)
      go out_of_fuel looped = cc (rw (receive_and_finish, looped) at e)
      go (returned s) looped =
          finish_exchange-Says fuel s x (receive_loop-ok_of fuel size cells 0 conn w r s looped)
            (rw (receive_and_finish, looped) at e)

  exchange_on-Says :
      (fuel : ℕ) (text : List ℕ) (size : ℕ) (cells : List ℕ) (conn : Connection p) (w : World p)
      (r : Option HttpsResult) (x : Exchanged p)
      → exchange_on p fuel text size cells conn w r ≡ returned x
      → Says x.ok x.result
  unfolding exchange_on tls_write close_failed
  exchange_on-Says fuel text size cells conn w r x e =
      elim (Option-cases (tls_write p fuel conn (some text) w r)) [
        | inl stuck ↦ cc (rw (exchange_on, stuck) at e)
        | inr (s, sent) ↦ elim (Bool-cases s.ok) [
          | inl good ↦
              receive_and_finish-Says fuel size cells s.conn s.world s.result x
                (rw (exchange_on, sent, good) at e)
          | inr bad ↦
              let ended = rw (exchange_on, sent, bad) at e in
              elim (Option-cases (tls_close p fuel (some s.conn) s.world)) [
                | inl stuck ↦ cc (rw (close_failed, stuck) at ended)
                | inr (w2, closed) ↦
                    let done = rw (close_failed, closed) at ended in
                    rw (← returned_inj done) (
                      inr (
                        write_loop-ok_of p fuel text 0 conn w (zero_result r) s
                          (ok_of-zero_result r) sent bad))
              ]
        ]
      ]

  -- Where an exchange returns, the field `ok` of the result, if the caller passed one, is the
  -- return value: on the refusals and the failures as well as on success.
  pub exchange_internal-Says :
      (fuel : ℕ) (host : Option (List ℕ)) (port : ℕ) (sni text : Option (List ℕ))
      (response : List ℕ) (size : ℕ) (w : World p) (r : Option HttpsResult) (x : Exchanged p)
      → exchange_internal p fuel host port sni text response size w r ≡ returned x
      → Says x.ok x.result
  unfolding exchange_internal opened_exchange
  exchange_internal-Says fuel none port sni text response size w r x e =
      rw (← returned_inj e) (inr (ok_of-zero_result r))
  exchange_internal-Says fuel (some host) port sni none response size w r x e =
      rw (← returned_inj e) (inr (ok_of-zero_result r))
  exchange_internal-Says fuel (some host) port sni (some text) response size w r x e =
      elim (Bool-cases (leb size 1)) [
        | inl small ↦
            let done = rw (exchange_internal, small) at e in
            rw (← returned_inj done) (inr (ok_of-zero_result r))
        | inr large ↦ elim (Option-cases (store response 0 0)) [
          | inl bad ↦ cc (rw (exchange_internal, large, bad) at e)
          | inr (cells, stored) ↦
              elim (Option-cases (tls_open p fuel (some host) port sni true (zero_result r) w)) [
                | inl stuck ↦
                    cc (rw (exchange_internal, large, stored, stuck, opened_exchange) at e)
                | inr (o, opened) ↦ elim (Option-cases (Opened.conn o)) [
                  | inl no_conn ↦
                      let done =
                        rw (exchange_internal, large, stored, opened, opened_exchange, no_conn) at
                          e in
                      rw (← returned_inj done)
                        (inr (tls_open-ok_of fuel host port sni (zero_result r) w o opened no_conn))
                  | inr (c, there) ↦
                      exchange_on-Says fuel text size cells c o.world o.result x
                        (rw (exchange_internal, large, stored, opened, opened_exchange, there) at e)
                ]
              ]
        ]
      ]
