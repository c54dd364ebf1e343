-- ===== src/Connection/Fields.antt =====
-- The field `ok` of the result of the calls of BearTLS/wm_https.c over a connection.
use bear_tls.Base.{
  ℕ, zero, suc, ◌+◌, ◌≡◌, refl, ap, ◌∙◌, ◌==◌, ◌||◌, Bool, false, not, Option, none, some, List,
  arith, if◌then◌else◌, ltb, length, take, drop, Bool-cases, Option-cases, inl, inr,
}
use bear_tls.Connection.Platform.{
  Platform, World, Connection, HttpsResult, zero_result, set_tls_error, set_ok, has, br_ssl_closed,
  br_ssl_sendapp, br_ssl_recvapp,
}
use bear_tls.Connection.Records.{Step, send_pending, recv_pending, drive_records, recv_chunk}
use bear_tls.Connection.Open.{handshake_loop}
use bear_tls.Connection.Transfer.{
  Written, ReadStep, take_len, push_data, write_loop, at_hand, closed_ok, read_loop, tls_read,
}

-- The field `ok` of a result, and 0 for a null pointer.
abbrev pub ok_of : Option HttpsResult → ℕ
ok_of none = 0
ok_of (some r) = r.ok

pub ok_of-zero_result : (r : Option HttpsResult) → ok_of (zero_result r) ≡ 0
unfolding zero_result
ok_of-zero_result none = refl
ok_of-zero_result (some r) = refl

pub set_tls_error-ok_of : (r : Option HttpsResult) (v : ℕ) → ok_of (set_tls_error v r) ≡ ok_of r
set_tls_error-ok_of none v = refl
set_tls_error-ok_of (some r) v = refl

module _ (p : Platform) where
  -- The pump writes error numbers only.
  send_pending-ok_of :
      (fuel : ℕ) (conn : Connection p) (w : World p) (r : Option HttpsResult) (s : Step p)
      → send_pending p fuel conn w r ≡ some s
      → ok_of s.result ≡ ok_of r
  unfolding send_pending
  send_pending-ok_of zero conn w r s e = cc
  send_pending-ok_of (suc fuel) conn w none s e =
      let (wr, net) = p.send w.net conn.sock (p.sendrec_buf conn.engine) in
      let n : ℕ = elim wr [ none ↦ 0 | some k ↦ k ] in
      ground (
        arith,
        send_pending-ok_of fuel (record conn { engine = p.sendrec_ack conn.engine n })
            (record w { net = net }) none s,
      )
  send_pending-ok_of (suc fuel) conn w (some r) s e =
      let (wr, net) = p.send w.net conn.sock (p.sendrec_buf conn.engine) in
      let n : ℕ = elim wr [ none ↦ 0 | some k ↦ k ] in
      ground (
        arith,
        send_pending-ok_of fuel (record conn { engine = p.sendrec_ack conn.engine n })
            (record w { net = net }) (some r) s,
      )

  recv_pending-ok_of :
      (conn : Connection p) (w : World p) (r : Option HttpsResult)
      → ok_of (recv_pending p conn w r).result ≡ ok_of r
  unfolding recv_pending
  recv_pending-ok_of conn w none =
      let len = p.recvrec_len conn.engine in
      let want = if ltb len recv_chunk then len else recv_chunk in
      let (rd, net) = p.recv w.net conn.sock want in ground arith
  recv_pending-ok_of conn w (some r) =
      let len = p.recvrec_len conn.engine in
      let want = if ltb len recv_chunk then len else recv_chunk in
      let (rd, net) = p.recv w.net conn.sock want in ground arith

  drive_records-ok_of :
      (fuel : ℕ) (conn : Connection p) (w : World p) (r : Option HttpsResult) (s : Step p)
      → drive_records p fuel conn w r ≡ some s
      → ok_of s.result ≡ ok_of r
  unfolding drive_records
  drive_records-ok_of fuel conn w none s e =
      ground (arith, send_pending-ok_of fuel conn w none s, recv_pending-ok_of conn w none)
  drive_records-ok_of fuel conn w (some r) s e =
      ground (arith, send_pending-ok_of fuel conn w (some r) s, recv_pending-ok_of conn w (some r))

  same_step : {s t : Step p} → some s ≡ some t → s ≡ t
  same_step e = cc

  pub handshake_loop-ok_of :
      (fuel : ℕ) (conn : Connection p) (w : World p) (r : Option HttpsResult) (s : Step p)
      → handshake_loop p fuel conn w r ≡ some s
      → ok_of s.result ≡ ok_of r
  unfolding handshake_loop
  handshake_loop-ok_of zero conn w r s e = cc
  handshake_loop-ok_of (suc fuel) conn w r s e =
      let state = p.current_state conn.engine in
      elim (Bool-cases (has state br_ssl_sendapp || has state br_ssl_recvapp)) [
        | inl ready ↦ let done = rw (handshake_loop, ready) at e in rw (← same_step done) refl
        | inr waiting ↦ elim (Option-cases (drive_records p fuel conn w r)) [
          | inl stuck ↦ cc (rw (handshake_loop, waiting, stuck) at e)
          | inr (q, driven) ↦
              let kept = drive_records-ok_of fuel conn w r q driven in
              elim (Bool-cases (not q.ok || q.conn.closed)) [
                | inl over ↦
                    let done = rw (handshake_loop, waiting, driven, over) at e in
                    rw (← same_step done) kept
                | inr on ↦
                    handshake_loop-ok_of fuel q.conn q.world q.result s
                      (rw (handshake_loop, waiting, driven, on) at e)
                    ∙ kept
              ]
        ]
      ]

  same_written : {s t : Written p} → some s ≡ some t → s ≡ t
  same_written e = cc

  -- A write that returns 0 leaves 0 in the field.
  pub write_loop-ok_of :
      (fuel : ℕ) (src : List ℕ) (sent : ℕ) (conn : Connection p) (w : World p)
      (r : Option HttpsResult) (s : Written p)
      → ok_of r ≡ 0
      → write_loop p fuel src sent conn w r ≡ some s
      → s.ok ≡ false
      → ok_of s.result ≡ 0
  unfolding write_loop
  write_loop-ok_of zero src sent conn w r s z e bad = cc
  write_loop-ok_of (suc fuel) src sent conn w r s z e bad =
      let n = take_len p conn (length src) in
      elim (Bool-cases (length src == 0)) [
        | inl empty ↦
            let done = rw (write_loop, empty) at e in cc (ap Written.ok (same_written done))
        | inr more ↦ elim (Bool-cases (has (p.current_state conn.engine) br_ssl_closed)) [
          | inl closed ↦
              let done = rw (write_loop, more, closed) at e in
              rw (← same_written done) (set_tls_error-ok_of r _ ∙ z)
          | inr opened ↦ elim (Bool-cases (n == 0)) [
            | inr some_room ↦
                write_loop-ok_of fuel (drop n src) (sent + n) (push_data p conn (take n src)) w r s
                  z (rw (write_loop, more, opened, some_room) at e) bad
            | inl no_room ↦ elim (Option-cases (drive_records p fuel conn w r)) [
              | inl stuck ↦ cc (rw (write_loop, more, opened, no_room, stuck) at e)
              | inr (q, driven) ↦
                  let kept = drive_records-ok_of fuel conn w r q driven ∙ z in
                  elim (Bool-cases (not q.ok || q.conn.closed)) [
                    | inl over ↦
                        let done = rw (write_loop, more, opened, no_room, driven, over) at e in
                        rw (← same_written done) kept
                    | inr on ↦
                        write_loop-ok_of fuel src sent q.conn q.world q.result s kept
                          (rw (write_loop, more, opened, no_room, driven, on) at e) bad
                  ]
            ]
          ]
        ]
      ]

  same_read : {s t : ReadStep p} → some s ≡ some t → s ≡ t
  same_read e = cc

  closed_ok-false :
      (r : Option HttpsResult) (err : ℕ)
      → closed_ok p r err ≡ false
      → ok_of (set_ok (if err == 0 then 1 else 0) (set_tls_error err r)) ≡ 0
  unfolding closed_ok
  closed_ok-false none err bad = cc
  closed_ok-false (some r) err bad = rw bad refl

  -- A read that returns 0 leaves 0 in the field.
  read_loop-ok_of :
      (fuel size : ℕ) (conn : Connection p) (w : World p) (r : Option HttpsResult) (s : ReadStep p)
      → ok_of r ≡ 0
      → read_loop p fuel size conn w r ≡ some s
      → s.ok ≡ false
      → ok_of s.result ≡ 0
  unfolding read_loop
  read_loop-ok_of zero size conn w r s z e bad = cc
  read_loop-ok_of (suc fuel) size conn w r s z e bad =
      elim (Bool-cases (has (p.current_state conn.engine) br_ssl_closed)) [
        | inl closed ↦
            let done = same_read (rw (read_loop, closed) at e) in
            rw (← done) (closed_ok-false r (p.last_error conn.engine) (ap ReadStep.ok done ∙ bad))
        | inr opened ↦ elim (Bool-cases (length (at_hand p conn size) == 0)) [
          | inr ready ↦
              let done = same_read (rw (read_loop, opened, ready) at e) in cc (ap ReadStep.ok done)
          | inl idle ↦ elim (Option-cases (drive_records p fuel conn w r)) [
            | inl stuck ↦ cc (rw (read_loop, opened, idle, stuck) at e)
            | inr (q, driven) ↦
                let kept = drive_records-ok_of fuel conn w r q driven ∙ z in
                elim (Bool-cases q.ok) [
                  | inr failed ↦
                      let done = rw (read_loop, opened, idle, driven, failed) at e in
                      rw (← same_read done) kept
                  | inl good ↦ elim (Bool-cases q.conn.closed) [
                    | inl over ↦
                        let done =
                          same_read (rw (read_loop, opened, idle, driven, good, over) at e) in
                        cc (ap ReadStep.ok done)
                    | inr on ↦
                        read_loop-ok_of fuel size q.conn q.world q.result s kept
                          (rw (read_loop, opened, idle, driven, good, on) at e) bad
                  ]
                ]
          ]
        ]
      ]

  pub tls_read-ok_of :
      (fuel : ℕ) (conn : Connection p) (has_buffer : Bool) (size : ℕ) (w : World p)
      (r : Option HttpsResult) (s : ReadStep p)
      → tls_read p fuel conn has_buffer size w r ≡ some s
      → s.ok ≡ false
      → ok_of s.result ≡ 0
  unfolding tls_read
  tls_read-ok_of fuel conn has_buffer size w r s e bad =
      elim (Bool-cases (not has_buffer || size == 0)) [
        | inl refused ↦
            let done = rw (tls_read, refused) at e in rw (← same_read done) (ok_of-zero_result r)
        | inr ok ↦
            read_loop-ok_of fuel size conn w (zero_result r) s (ok_of-zero_result r)
              (rw (tls_read, ok) at e) bad
      ]
