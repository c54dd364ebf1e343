-- ===== src/Connection/Kept.antt =====
-- Sending and receiving application data (BearTLS/wm_https.c) leave the socket and the counts of
-- what is held as they are.
use bear_tls.Base.{
  some_inj, ℕ, zero, suc, ◌+◌, ◌≡◌, refl, ◌∙◌, ◌==◌, ◌||◌, Bool, not, Option, some, List, length,
  take, drop, Bool-cases, Option-cases, inl, inr,
}
use bear_tls.Connection.Platform.{
  Platform, World, Connection, HttpsResult, zero_result, has, br_ssl_closed,
}
use bear_tls.Connection.Records.{drive_records}
use bear_tls.Connection.Transfer.{
  Written, ReadStep, take_len, push_data, write_loop, at_hand, read_loop, tls_read,
}
use bear_tls.Connection.Held.{held, drive_records-held}

module _ (p : Platform) where
  pub write_loop-held :
      (fuel : ℕ) (src : List ℕ) (sent : ℕ) (conn : Connection p) (w : World p)
      (r : Option HttpsResult) (s : Written p)
      → write_loop p fuel src sent conn w r ≡ some s
      → held p s.conn.sock s.world ≡ held p conn.sock w
  unfolding write_loop push_data
  write_loop-held zero src sent conn w r s e = cc
  write_loop-held (suc fuel) src sent conn w r s e =
      let n = take_len p conn (length src) in
      elim (Bool-cases (length src == 0)) [
        | inl empty ↦ let done = rw (write_loop, empty) at e in rw (← some_inj done) refl
        | inr more ↦ elim (Bool-cases (has (p.current_state conn.engine) br_ssl_closed)) [
          | inl closed ↦ let done = rw (write_loop, more, closed) at e in rw (← some_inj done) refl
          | inr opened ↦ elim (Bool-cases (n == 0)) [
            | inr some_room ↦
                write_loop-held fuel (drop n src) (sent + n) (push_data p conn (take n src)) w r s
                  (rw (write_loop, more, opened, some_room) at e)
            | inl no_room ↦ elim (Option-cases (drive_records p fuel conn w r)) [
              | inl stuck ↦ cc (rw (write_loop, more, opened, no_room, stuck) at e)
              | inr (q, driven) ↦
                  let kept = drive_records-held p fuel conn w r q driven in
                  elim (Bool-cases (not q.ok || q.conn.closed)) [
                    | inl over ↦
                        let done = rw (write_loop, more, opened, no_room, driven, over) at e in
                        rw (← some_inj done) kept
                    | inr on ↦
                        write_loop-held fuel src sent q.conn q.world q.result s
                          (rw (write_loop, more, opened, no_room, driven, on) at e)
                        ∙ kept
                  ]
            ]
          ]
        ]
      ]

  read_loop-held :
      (fuel size : ℕ) (conn : Connection p) (w : World p) (r : Option HttpsResult) (s : ReadStep p)
      → read_loop p fuel size conn w r ≡ some s
      → held p s.conn.sock s.world ≡ held p conn.sock w
  unfolding read_loop
  read_loop-held zero size conn w r s e = cc
  read_loop-held (suc fuel) size conn w r s e =
      elim (Bool-cases (has (p.current_state conn.engine) br_ssl_closed)) [
        | inl closed ↦ let done = rw (read_loop, closed) at e in rw (← some_inj done) refl
        | inr opened ↦ elim (Bool-cases (length (at_hand p conn size) == 0)) [
          | inr ready ↦ let done = rw (read_loop, opened, ready) at e in rw (← some_inj done) refl
          | inl idle ↦ elim (Option-cases (drive_records p fuel conn w r)) [
            | inl stuck ↦ cc (rw (read_loop, opened, idle, stuck) at e)
            | inr (q, driven) ↦
                let kept = drive_records-held p fuel conn w r q driven in
                elim (Bool-cases q.ok) [
                  | inr bad ↦
                      let done = rw (read_loop, opened, idle, driven, bad) at e in
                      rw (← some_inj done) kept
                  | inl good ↦ elim (Bool-cases q.conn.closed) [
                    | inl over ↦
                        let done = rw (read_loop, opened, idle, driven, good, over) at e in
                        rw (← some_inj done) kept
                    | inr on ↦
                        read_loop-held fuel size q.conn q.world q.result s
                          (rw (read_loop, opened, idle, driven, good, on) at e)
                        ∙ kept
                  ]
                ]
          ]
        ]
      ]

  pub tls_read-held :
      (fuel : ℕ) (conn : Connection p) (has_buffer : Bool) (size : ℕ) (w : World p)
      (r : Option HttpsResult) (s : ReadStep p)
      → tls_read p fuel conn has_buffer size w r ≡ some s
      → held p s.conn.sock s.world ≡ held p conn.sock w
  unfolding tls_read
  tls_read-held fuel conn has_buffer size w r s e =
      elim (Bool-cases (not has_buffer || size == 0)) [
        | inl refused ↦ let done = rw (tls_read, refused) at e in rw (← some_inj done) refl
        | inr ok ↦ read_loop-held fuel size conn w (zero_result r) s (rw (tls_read, ok) at e)
      ]
