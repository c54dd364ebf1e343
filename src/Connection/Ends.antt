-- ===== src/Connection/Ends.antt =====
-- The loops of BearTLS/wm_https.c over a connection come to an end: the handshake, `wm_tls_write`,
-- `wm_tls_read` and `wm_tls_close`.
use bear_tls.Base.{
  ℕ, zero, suc, ◌+◌, ◌≤◌, ◌<◌, ◌≡◌, refl, ◌==◌, ◌||◌, ◌⊎◌, Bool, true, false, not, Option, none,
  some, arith, length, length-take, Bool-cases, inl, inr,
}
use bear_tls.Connection.Platform.{
  Platform, World, Connection, HttpsResult, zero_result, has, br_ssl_closed, br_ssl_sendrec,
  br_ssl_recvrec, br_ssl_sendapp, br_ssl_recvapp,
}
use bear_tls.Connection.Records.{Step}
use bear_tls.Connection.Open.{handshake_loop, close_loop, finish_close, tls_close}
use bear_tls.Connection.Transfer.{ReadStep, at_hand, read_loop, tls_read}
use bear_tls.Connection.Progress.{Progress, left, Ends, send_pending_ends, drive_records-Moves}

pub over-cases : (ok closed : Bool) → (not ok || closed) ≡ false → (ok ≡ true) × (closed ≡ false)
over-cases true closed e = (refl, e)
over-cases false closed e = cc

module _ (p : Platform) (g : Progress p) where
  -- A step that went on did some of the work.
  pub went_on :
      (bound : ℕ) (s : Step p)
      → (s.ok ≡ false) ⊎ ((s.conn.closed ≡ true) ⊎ (left p g s.conn s.world < bound))
      → s.ok ≡ true
      → s.conn.closed ≡ false
      → left p g s.conn s.world < bound
  went_on bound s (inl bad) good on = cc
  went_on bound s (inr (inl over)) good on = cc
  went_on bound s (inr (inr less)) good on = less

  pub handshake_loop-Ends :
      (fuel : ℕ) (conn : Connection p) (w : World p) (r : Option HttpsResult)
      → left p g conn w + 1 < fuel
      → Ends p g (left p g conn w) (handshake_loop p fuel conn w r)
  unfolding handshake_loop
  handshake_loop-Ends zero conn w r enough = absurd (omega arith)
  handshake_loop-Ends (suc fuel) conn w r enough =
      let state = p.current_state conn.engine in
      elim (Bool-cases (has state br_ssl_sendapp || has state br_ssl_recvapp)) [
        | inl ready ↦ rw (handshake_loop, ready) (_, refl, omega arith)
        | inr waiting ↦
            let busy : (has state br_ssl_closed ≡ true)
                ⊎ ((has state br_ssl_sendrec ≡ true) ⊎ (has state br_ssl_recvrec ≡ true)) =
              elim (Bool-cases (has state br_ssl_closed)) [
                | inl closed ↦ inl closed
                | inr opened ↦ elim (g.offers conn.engine opened) [
                  | inl sending ↦ inr (inl sending)
                  | inr (inl receiving) ↦ inr (inr receiving)
                  | inr (inr (app, room)) ↦ cc (rw app at waiting)
                ]
              ] in
            let (s, driven, bound, how) =
              drive_records-Moves p g fuel conn w r (omega arith) busy in
            elim (Bool-cases (not s.ok || s.conn.closed)) [
              | inl over ↦ rw (handshake_loop, waiting, driven, over) (_, refl, bound)
              | inr on ↦
                  let (good, still) = over-cases s.ok s.conn.closed on in
                  let less = went_on (left p g conn w) s how good still in
                  let (t, e, b) = handshake_loop-Ends fuel s.conn s.world s.result (omega arith) in
                  rw (handshake_loop, waiting, driven, on) (t, e, omega arith)
            ]
      ]

  -- Sending what is pending after a close, as `close_loop` does.
  close_loop_ends :
      (fuel : ℕ) (conn : Connection p) (w : World p)
      → left p g conn w + 1 < fuel
      → (w' : World p) × (close_loop p fuel conn w ≡ some w')
  unfolding close_loop
  close_loop_ends zero conn w enough = absurd (omega arith)
  close_loop_ends (suc fuel) conn w enough =
      elim (Bool-cases (has (p.current_state conn.engine) br_ssl_sendrec)) [
        | inr idle ↦ rw (close_loop, idle) (_, refl)
        | inl sending ↦
            let (s, sent, bound, how) =
              send_pending_ends p g fuel conn w none (omega arith)
                (g.sendrec_buf-pos conn.engine sending) in
            elim (Bool-cases s.ok) [
              | inr bad ↦ rw (close_loop, sending, sent, bad) (_, refl)
              | inl good ↦ elim how [
                | inl bad ↦ cc
                | inr less ↦
                    let (w', e) = close_loop_ends fuel s.conn s.world (omega arith) in
                    rw (close_loop, sending, sent, good) (w', e)
              ]
            ]
      ]

  -- As `Ends`, for `wm_tls_read`.
  abbrev pub ReadEnds : ℕ → Option (ReadStep p) → Type 0
  ReadEnds bound o = (s : ReadStep p) × (o ≡ some s) × (left p g s.conn s.world ≤ bound)

  -- With application data and room for it, something is at hand.
  at_hand_some :
      (conn : Connection p) (size : ℕ)
      → 0 < size
      → has (p.current_state conn.engine) br_ssl_recvapp ≡ true
      → 0 < length (p.recvapp_buf conn.engine)
      → (length (at_hand p conn size) == 0) ≡ false
  unfolding at_hand
  at_hand_some conn size room app there =
      let l = length-take size (p.recvapp_buf conn.engine) in rw app (ground (arith, l))

  read_loop-Ends :
      (fuel size : ℕ) (conn : Connection p) (w : World p) (r : Option HttpsResult)
      → left p g conn w + 1 < fuel
      → 0 < size
      → ReadEnds (left p g conn w) (read_loop p fuel size conn w r)
  unfolding read_loop
  read_loop-Ends zero size conn w r enough room = absurd (omega arith)
  read_loop-Ends (suc fuel) size conn w r enough room =
      let state = p.current_state conn.engine in
      elim (Bool-cases (has state br_ssl_closed)) [
        | inl closed ↦ rw (read_loop, closed) (_, refl, omega arith)
        | inr opened ↦ elim (Bool-cases (length (at_hand p conn size) == 0)) [
          | inr ready ↦
              rw (read_loop, opened, ready)
                (_, refl, g.work-recvapp_ack conn.engine w.net (length (at_hand p conn size)))
          | inl idle ↦
              let busy : (has state br_ssl_closed ≡ true)
                  ⊎ ((has state br_ssl_sendrec ≡ true) ⊎ (has state br_ssl_recvrec ≡ true)) =
                elim (g.wants conn.engine opened) [
                  | inl sending ↦ inr (inl sending)
                  | inr (inl receiving) ↦ inr (inr receiving)
                  | inr (inr (app, there)) ↦ cc (at_hand_some conn size room app there)
                ] in
              let (s, driven, bound, how) =
                drive_records-Moves p g fuel conn w r (omega arith) busy in
              elim (Bool-cases s.ok) [
                | inr bad ↦ rw (read_loop, opened, idle, driven, bad) (_, refl, bound)
                | inl good ↦ elim (Bool-cases s.conn.closed) [
                  | inl over ↦ rw (read_loop, opened, idle, driven, good, over) (_, refl, bound)
                  | inr on ↦
                      let less = went_on (left p g conn w) s how good on in
                      let (t, e, b) =
                        read_loop-Ends fuel size s.conn s.world s.result (omega arith) room in
                      rw (read_loop, opened, idle, driven, good, on) (t, e, omega arith)
                ]
              ]
        ]
      ]

  -- A call of `wm_tls_read` comes to an end, with no more work left than before.
  pub tls_read-Ends :
      (fuel : ℕ) (conn : Connection p) (has_buffer : Bool) (size : ℕ) (w : World p)
      (r : Option HttpsResult)
      → left p g conn w + 1 < fuel
      → ReadEnds (left p g conn w) (tls_read p fuel conn has_buffer size w r)
  unfolding tls_read
  tls_read-Ends fuel conn has_buffer size w r enough =
      elim (Bool-cases (not has_buffer || size == 0)) [
        | inl refused ↦ rw (tls_read, refused) (_, refl, omega arith)
        | inr ok ↦
            let (s, e, b) = read_loop-Ends fuel size conn w (zero_result r) enough (ground arith) in
            rw (tls_read, ok) (s, e, b)
      ]

  -- A call of `wm_tls_close` comes to an end.
  pub tls_close_ends :
      (fuel : ℕ) (conn : Connection p) (w : World p)
      → left p g conn w + g.farewell + 1 < fuel
      → (w' : World p) × (tls_close p fuel (some conn) w ≡ some w')
  unfolding tls_close finish_close
  tls_close_ends fuel conn w enough = elim (Bool-cases conn.closed) [
    | inl closed ↦ rw (tls_close, closed) (_, refl)
    | inr opened ↦
        let closing : Connection p = record {
          sock = conn.sock;
          engine = p.close conn.engine;
          closed = false;
        } in
        let (w', e) =
          close_loop_ends fuel closing w (omega (arith, g.work-close conn.engine w.net)) in
        rw (tls_close, opened, e, finish_close) (_, refl)
  ]
