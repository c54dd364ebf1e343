-- ===== src/Connection/Delivery.antt =====
-- What `wm_tls_write` and `wm_tls_read` (BearTLS/wm_https.c) tell their caller about the bytes that
-- went through the engine.
use bear_tls.Base.{
  some_inj, ℕ, zero, suc, ◌+◌, ◌≤◌, ◌<◌, ◌≡◌, refl, sym, ap, ◌∙◌, ◌==◌, ◌||◌, ◌⊎◌, Bool, true,
  false, not, Option, some, List, [], ◌++◌, append-nil, append_assoc, arith, length, take, drop,
  length-take, length-drop, take-length, take-add, Bool-cases, Option-cases, inl, inr, ==_iff,
}
use bear_tls.Connection.Platform.{
  Platform, World, Connection, HttpsResult, zero_result, has, br_ssl_closed, br_ssl_sendapp,
  br_ssl_recvapp,
}
use bear_tls.Connection.Records.{Step, drive_records}
use bear_tls.Connection.Transfer.{
  Written, ReadStep, take_len, push_data, write_loop, tls_write, at_hand, read_loop, tls_read,
}
use bear_tls.Connection.Streams.{Streams, drive_records_keeps}

module _ (p : Platform) (v : Streams p) where
  -- Handing a chunk over appends it to what was accepted.
  push_data_accepts :
      (conn : Connection p) (chunk : List ℕ)
      → has (p.current_state conn.engine) br_ssl_sendapp ≡ true
      → 0 < length chunk
      → length chunk ≤ p.sendapp_len conn.engine
      → v.accepted (push_data p conn chunk).engine ≡ v.accepted conn.engine ++ chunk
  unfolding push_data
  push_data_accepts conn chunk on some_bytes room =
      v.accepted-flush _ ∙ v.accepted-sendapp_ack conn.engine chunk on some_bytes room

  take_len-le : (conn : Connection p) (left : ℕ) → take_len p conn left ≤ left
  unfolding take_len
  take_len-le conn left = ground arith

  -- A chunk is handed over only where the engine takes some, and fits in the room that it offers.
  chunk_fits :
      (conn : Connection p) (src : List ℕ)
      → (take_len p conn (length src) == 0) ≡ false
      → (has (p.current_state conn.engine) br_ssl_sendapp ≡ true)
        × (0 < length (take (take_len p conn (length src)) src))
        × (length (take (take_len p conn (length src)) src) ≤ p.sendapp_len conn.engine)
  unfolding take_len
  chunk_fits conn src some_room =
      let shorter = length-take (take_len p conn (length src)) src in
      elim (Bool-cases (has (p.current_state conn.engine) br_ssl_sendapp)) [
        | inl on ↦ (on, ground (arith, take_len-le conn (length src)), ground arith)
        | inr off ↦ cc (rw off at some_room)
      ]

  -- `s` accounts for a prefix of `src`, behind `sent` bytes and the stream `before`.
  abbrev Accounts : List ℕ → List ℕ → ℕ → Written p → Type 0
  Accounts before src sent s =
      (k : ℕ) × (s.bytes_written ≡ sent + k)
      × (v.accepted s.conn.engine ≡ before ++ take k src)
      × ((s.ok ≡ false) ⊎ (k ≡ length src))

  -- A return that takes over no more of `src`.
  stop-Accounts :
      (before src : List ℕ) (sent : ℕ) (s t : Written p)
      → some s ≡ some t
      → s.bytes_written ≡ sent
      → v.accepted s.conn.engine ≡ before
      → (s.ok ≡ false) ⊎ (0 ≡ length src)
      → Accounts before src sent t
  stop-Accounts before src sent s t e count stream how =
      rw (← some_inj e) (0, ground arith, stream ∙ sym (append-nil before), how)

  more-Accounts :
      (before src : List ℕ) (n sent : ℕ) (s : Written p)
      → n ≤ length src
      → Accounts (before ++ take n src) (drop n src) (sent + n) s
      → Accounts before src sent s
  more-Accounts before src n sent s le (k, count, stream, how) = (
    n + k,
    omega arith,
    stream
        ∙ append_assoc before (take n src) (take k (drop n src))
        ∙ ap (λ t. before ++ t) (sym (take-add n k src)),
    elim how [ inl bad ↦ inl bad | inr all ↦ inr (omega (arith, length-drop n src, all)) ],
  )

  write_loop-Accounts :
      (fuel : ℕ) (src : List ℕ) (sent : ℕ) (conn : Connection p) (w : World p)
      (r : Option HttpsResult) (s : Written p)
      → write_loop p fuel src sent conn w r ≡ some s
      → Accounts (v.accepted conn.engine) src sent s
  unfolding write_loop
  write_loop-Accounts zero src sent conn w r s e = cc
  write_loop-Accounts (suc fuel) src sent conn w r s e =
      let n = take_len p conn (length src) in
      let before = v.accepted conn.engine in
      let kept : (q : Step p)
          → drive_records p fuel conn w r ≡ some q
          → v.accepted q.conn.engine ≡ before =
        drive_records_keeps p v.accepted v.accepted-sendrec_ack v.accepted-recvrec_ack fuel conn w
          r in
      elim (Bool-cases (length src == 0)) [
        | inl empty ↦
            let done = rw (write_loop, empty) at e in
            stop-Accounts before src sent _ s done refl refl (inr (sym ((==_iff _ _).0 empty)))
        | inr more ↦ elim (Bool-cases (has (p.current_state conn.engine) br_ssl_closed)) [
          | inl closed ↦
              let done = rw (write_loop, more, closed) at e in
              stop-Accounts before src sent _ s done refl refl (inl refl)
          | inr opened ↦ elim (Bool-cases (n == 0)) [
            | inr some_room ↦
                let (on, some_bytes, room) = chunk_fits conn src some_room in
                more-Accounts before src n sent s (take_len-le conn (length src)) (
                  rw (← push_data_accepts conn (take n src) on some_bytes room) (
                    write_loop-Accounts fuel (drop n src) (sent + n) (push_data p conn (take n src))
                      w r s (rw (write_loop, more, opened, some_room) at e)))
            | inl no_room ↦ elim (Option-cases (drive_records p fuel conn w r)) [
              | inl stuck ↦ cc (rw (write_loop, more, opened, no_room, stuck) at e)
              | inr (q, driven) ↦ elim (Bool-cases (not q.ok || q.conn.closed)) [
                | inl over ↦
                    let done = rw (write_loop, more, opened, no_room, driven, over) at e in
                    stop-Accounts before src sent _ s done refl (kept q driven) (inl refl)
                | inr on ↦ rw (← kept q driven) (
                    write_loop-Accounts fuel src sent q.conn q.world q.result s
                      (rw (write_loop, more, opened, no_room, driven, on) at e))
              ]
            ]
          ]
        ]
      ]

  -- What a call of `wm_tls_write` that returns has done, for an engine with its streams, which
  -- accepts bytes only in a state that says so and no more at a time than it has room for, where
  -- the stream that the engine accepted before the call was `before`: it went on by the first
  -- `*bytes_written` bytes of the caller's data, and these are all of them unless the call returns
  -- 0.
  pub tls_write-accepted :
      (fuel : ℕ) (conn : Connection p) (src : List ℕ) (w : World p) (r : Option HttpsResult)
      (s : Written p)
      → tls_write p fuel conn (some src) w r ≡ some s
      → (v.accepted s.conn.engine ≡ v.accepted conn.engine ++ take s.bytes_written src)
        × ((s.ok ≡ false) ⊎ (s.bytes_written ≡ length src))
  unfolding tls_write
  tls_write-accepted fuel conn src w r s e =
      let (k, count, stream, how) = write_loop-Accounts fuel src 0 conn w (zero_result r) s e in
      let same : s.bytes_written ≡ k = omega (arith, count) in rw same (stream, how)

  -- The reader of application data: `before` is the stream that was delivered before.
  abbrev Reads : List ℕ → ℕ → ReadStep p → Type 0
  Reads before size s =
      (v.delivered s.conn.engine ≡ before ++ s.bytes)
      × (length s.bytes ≤ size)
      × ((s.ok ≡ true) ⊎ (s.bytes ≡ []))

  none-Reads :
      (before : List ℕ) (size : ℕ) (s t : ReadStep p)
      → some s ≡ some t
      → s.bytes ≡ []
      → v.delivered s.conn.engine ≡ before
      → Reads before size t
  none-Reads before size s t e none_read stream =
      rw (← some_inj e, none_read) (stream ∙ sym (append-nil before), omega arith, inr refl)

  at_hand-Reads :
      (conn : Connection p) (size : ℕ)
      → (length (at_hand p conn size) == 0) ≡ false
      → (v.delivered (p.recvapp_ack conn.engine (length (at_hand p conn size)))
          ≡ v.delivered conn.engine ++ at_hand p conn size)
        × (length (at_hand p conn size) ≤ size)
  unfolding at_hand
  at_hand-Reads conn size ready =
      let buf = p.recvapp_buf conn.engine in
      elim (Bool-cases (has (p.current_state conn.engine) br_ssl_recvapp)) [
        | inl on ↦ rw on (
          v.delivered-recvapp_ack conn.engine (length (take size buf)) on (ground arith)
                (omega (arith, length-take size buf))
              ∙ ap (λ t. v.delivered conn.engine ++ t) (take-length size buf),
          omega (arith, length-take size buf),
        )
        | inr off ↦ cc (rw off at ready)
      ]

  read_loop-Reads :
      (fuel size : ℕ) (conn : Connection p) (w : World p) (r : Option HttpsResult) (s : ReadStep p)
      → read_loop p fuel size conn w r ≡ some s
      → Reads (v.delivered conn.engine) size s
  unfolding read_loop
  read_loop-Reads zero size conn w r s e = cc
  read_loop-Reads (suc fuel) size conn w r s e =
      let before = v.delivered conn.engine in
      let kept : (q : Step p)
          → drive_records p fuel conn w r ≡ some q
          → v.delivered q.conn.engine ≡ before =
        drive_records_keeps p v.delivered v.delivered-sendrec_ack v.delivered-recvrec_ack fuel conn
          w r in
      elim (Bool-cases (has (p.current_state conn.engine) br_ssl_closed)) [
        | inl closed ↦
            let done = rw (read_loop, closed) at e in none-Reads before size _ s done refl refl
        | inr opened ↦ elim (Bool-cases (length (at_hand p conn size) == 0)) [
          | inr ready ↦
              let done = rw (read_loop, opened, ready) at e in
              let (stream, fits) = at_hand-Reads conn size ready in
              rw (← some_inj done) (stream, fits, inl refl)
          | inl idle ↦ elim (Option-cases (drive_records p fuel conn w r)) [
            | inl stuck ↦ cc (rw (read_loop, opened, idle, stuck) at e)
            | inr (q, driven) ↦ elim (Bool-cases q.ok) [
              | inr bad ↦
                  let done = rw (read_loop, opened, idle, driven, bad) at e in
                  none-Reads before size _ s done refl (kept q driven)
              | inl good ↦ elim (Bool-cases q.conn.closed) [
                | inl over ↦
                    let done = rw (read_loop, opened, idle, driven, good, over) at e in
                    none-Reads before size _ s done refl (kept q driven)
                | inr on ↦ rw (← kept q driven) (
                    read_loop-Reads fuel size q.conn q.world q.result s
                      (rw (read_loop, opened, idle, driven, good, on) at e))
              ]
            ]
          ]
        ]
      ]

  -- What a call of `wm_tls_read` that returns has done, for an engine with its streams: the bytes
  -- that it stored in the caller's buffer are exactly the ones by which the stream that the engine
  -- delivered went on, and they fit in the buffer; and the call returns 1, or there are none.
  pub tls_read-delivered :
      (fuel : ℕ) (conn : Connection p) (has_buffer : Bool) (size : ℕ) (w : World p)
      (r : Option HttpsResult) (s : ReadStep p)
      → tls_read p fuel conn has_buffer size w r ≡ some s
      → (v.delivered s.conn.engine ≡ v.delivered conn.engine ++ s.bytes)
        × (length s.bytes ≤ size)
        × ((s.ok ≡ true) ⊎ (s.bytes ≡ []))
  unfolding tls_read
  tls_read-delivered fuel conn has_buffer size w r s e =
      elim (Bool-cases (not has_buffer || size == 0)) [
        | inl refused ↦
            let done = rw (tls_read, refused) at e in
            none-Reads (v.delivered conn.engine) size _ s done refl refl
        | inr ok ↦ read_loop-Reads fuel size conn w (zero_result r) s (rw (tls_read, ok) at e)
      ]
