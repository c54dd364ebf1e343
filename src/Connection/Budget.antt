-- ===== src/Connection/Budget.antt =====
-- Writing a request and reading its answer in BearTLS/wm_https.c come to an end: the bytes that are
-- handed over and the room in the array pay for the rounds, beside the work of the engine.
use bear_tls.Base.{
  ℕ, zero, suc, ◌+◌, ◌-◌, ◌*◌, ◌≤◌, ◌<◌, ◌≡◌, refl, sym, ap, ◌∙◌, ◌==◌, ◌||◌, ◌⊎◌, true, not,
  Option, some, List, arith, leb, leb→lt, length, take, drop, length-take, length-drop, Bool-cases,
  Option-cases, inl, inr,
}
use native.Mathlib.Nat.{mul-add}
use bear_tls.Connection.Platform.{
  Platform, World, Connection, HttpsResult, has, br_ssl_closed, br_ssl_sendrec, br_ssl_recvrec,
  br_ssl_sendapp,
}
use bear_tls.Connection.Transfer.{Written, take_len, push_data, write_loop}
use bear_tls.Connection.Exchange.{Outcome, fault, returned, Received, store_read, receive_loop}
use bear_tls.Connection.Progress.{Progress, left, drive_records-Moves}
use bear_tls.Connection.Ends.{went_on, over-cases, tls_read-Ends}

module _ (p : Platform) (g : Progress p) where
  take_len_le : (conn : Connection p) (n : ℕ) → take_len p conn n ≤ n
  unfolding take_len
  take_len_le conn n = ground arith

  take_len_pos :
      (conn : Connection p) (n : ℕ)
      → has (p.current_state conn.engine) br_ssl_sendapp ≡ true
      → 0 < p.sendapp_len conn.engine
      → 0 < n
      → 0 < take_len p conn n
  unfolding take_len
  take_len_pos conn n app room some_left = ground arith

  -- What handing over `n` bytes adds to the work is paid by what they leave to hand over.
  push_spends :
      (conn : Connection p) (w : World p) (src : List ℕ) (n : ℕ)
      → n ≤ length src
      → (left p g (push_data p conn (take n src)) w + g.cost * length (drop n src)
          ≤ left p g conn w + g.cost * length src)
        × (length (drop n src) + n ≡ length src)
  unfolding push_data
  push_spends conn w src n fits =
      let lt : length (take n src) ≡ n = omega (arith, length-take n src) in
      let ld = length-drop n src in
      let paid = rw lt at (g.work-flush conn.engine w.net (take n src)) in
      let whole : n + length (drop n src) ≡ length src = omega (arith, ld) in
      let shares : g.cost * length src ≡ g.cost * n + g.cost * length (drop n src) =
        ap (λ m. g.cost * m) (sym whole) ∙ mul-add g.cost n (length (drop n src)) in
      (omega (arith, paid, shares), omega (arith, whole))

  -- As `Ends`, for `wm_tls_write`.
  abbrev pub WriteEnds : ℕ → Option (Written p) → Type 0
  WriteEnds bound o = (s : Written p) × (o ≡ some s) × (left p g s.conn s.world ≤ bound)

  pub write_loop-Ends :
      (fuel : ℕ) (src : List ℕ) (sent : ℕ) (conn : Connection p) (w : World p)
      (r : Option HttpsResult)
      → left p g conn w + g.cost * length src + length src + 1 < fuel
      → WriteEnds (left p g conn w + g.cost * length src) (write_loop p fuel src sent conn w r)
  unfolding write_loop
  write_loop-Ends zero src sent conn w r enough = absurd (omega arith)
  write_loop-Ends (suc fuel) src sent conn w r enough =
      let state = p.current_state conn.engine in
      let n = take_len p conn (length src) in
      elim (Bool-cases (length src == 0)) [
        | inl empty ↦ rw (write_loop, empty) (_, refl, omega arith)
        | inr more ↦ elim (Bool-cases (has state br_ssl_closed)) [
          | inl closed ↦ rw (write_loop, more, closed) (_, refl, omega arith)
          | inr opened ↦ elim (Bool-cases (n == 0)) [
            | inr some_room ↦
                let (paid, rest) = push_spends conn w src n (take_len_le conn (length src)) in
                let (t, e, b) =
                  write_loop-Ends fuel (drop n src) (sent + n) (push_data p conn (take n src)) w r
                    (ground (arith, paid, rest)) in
                rw (write_loop, more, opened, some_room) (t, e, omega (arith, paid, b))
            | inl no_room ↦
                let busy : (has state br_ssl_closed ≡ true)
                    ⊎ ((has state br_ssl_sendrec ≡ true) ⊎ (has state br_ssl_recvrec ≡ true)) =
                  elim (g.offers conn.engine opened) [
                    | inl sending ↦ inr (inl sending)
                    | inr (inl receiving) ↦ inr (inr receiving)
                    | inr (inr (app, room)) ↦
                        let pos = take_len_pos conn (length src) app room (ground arith) in
                        absurd (ground arith)
                  ] in
                let (s, driven, bound, how) =
                  drive_records-Moves p g fuel conn w r (omega arith) busy in
                elim (Bool-cases (not s.ok || s.conn.closed)) [
                  | inl over ↦
                      rw (write_loop, more, opened, no_room, driven, over) (_, refl, omega arith)
                  | inr on ↦
                      let (good, still) = over-cases s.ok s.conn.closed on in
                      let less = went_on p g (left p g conn w) s how good still in
                      let (t, e, b) =
                        write_loop-Ends fuel src sent s.conn s.world s.result (omega arith) in
                      rw (write_loop, more, opened, no_room, driven, on) (t, e, omega arith)
                ]
          ]
        ]
      ]

  -- An outcome other than the end of the fuel, with no more work than `bound` where it is a result.
  abbrev pub ReceiveEnds : ℕ → Outcome (Received p) → Type 0
  ReceiveEnds bound o =
      (o ≡ fault) ⊎ ((s : Received p) × (o ≡ returned s) × (left p g s.conn s.world ≤ bound))

  pub receive_loop-Ends :
      (fuel size : ℕ) (cells : List ℕ) (count : ℕ) (conn : Connection p) (w : World p)
      (r : Option HttpsResult)
      → count + 1 < size
      → left p g conn w + (size - count) + 2 < fuel
      → ReceiveEnds (left p g conn w) (receive_loop p fuel size cells count conn w r)
  unfolding receive_loop
  receive_loop-Ends zero size cells count conn w r room enough = absurd (omega arith)
  receive_loop-Ends (suc fuel) size cells count conn w r room enough =
      let (q, got, bound) = tls_read-Ends p g fuel conn true (size - count - 1) w r (omega arith) in
      elim (Bool-cases (not q.ok || length q.bytes == 0)) [
        | inl over ↦ rw (receive_loop, got, over) (inr (_, refl, bound))
        | inr more ↦ elim (Option-cases (store_read p cells count q.bytes)) [
          | inl bad ↦ inl (rw (receive_loop, got, more, bad) refl)
          | inr (cells', stored) ↦ elim (Bool-cases (leb (size - 1) (count + length q.bytes))) [
            | inl full ↦ rw (receive_loop, got, more, stored, full) (inr (_, refl, bound))
            | inr room' ↦
                let some_bytes : 0 < length q.bytes = ground arith in
                let fits = leb→lt _ _ room' in
                elim (receive_loop-Ends fuel size cells' (count + length q.bytes) q.conn q.world
                  q.result (omega (arith, fits)) (omega (arith, fits, some_bytes, bound))) [
                    | inl bad ↦ inl (rw (receive_loop, got, more, stored, room') bad)
                    | inr (s, e, b) ↦
                        inr (
                          s,
                          rw (receive_loop, got, more, stored, room') e,
                          omega (arith, b, bound),
                        )
                  ]
          ]
        ]
      ]
