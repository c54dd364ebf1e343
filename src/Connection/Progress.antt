-- ===== src/Connection/Progress.antt =====
-- The record pump of BearTLS/wm_https.c (`wm_tls_send_pending_records`,
-- `wm_tls_recv_pending_records`, `wm_tls_drive_records`) comes to an end, with an engine that is
-- never idle and a peer that has a finite amount to say.
use bear_tls.Base.{
  ℕ, zero, suc, ◌+◌, ◌*◌, ◌≤◌, ◌<◌, ◌≡◌, refl, ◌==◌, ◌⊎◌, true, false, Option, some, List, [], ◌∷◌,
  arith, if◌then◌else◌, ltb, length, Bool-cases, Option-cases, inl, inr, ==_iff,
}
use bear_tls.Connection.Platform.{
  Platform, World, Connection, HttpsResult, has, br_ssl_closed, br_ssl_sendrec, br_ssl_recvrec,
  br_ssl_sendapp, br_ssl_recvapp,
}
use bear_tls.Connection.Records.{Step, send_pending, recv_pending, drive_records, recv_chunk}

-- `work` bounds the records that an engine and its peer still exchange. Each record byte that is
-- sent or received is some of it; a byte of application data adds at most `cost`, a close at most
-- `farewell`, and a fresh engine has at most `start`. As the engine's documentation says, an engine
-- that is not closed offers or wants something, and its flags go with buffers that are not empty.
pub record Progress (p : Platform) : Type 0 where
  pub work : p.Engine → p.Net → ℕ
  pub cost : ℕ
  pub farewell : ℕ
  pub start : ℕ
  pub work-send :
      (e : p.Engine) (net : p.Net) (sock : Option ℕ) (bytes : List ℕ)
      → work e (p.send net sock bytes).1 ≤ work e net
  pub work-sendrec_ack :
      (e : p.Engine) (net : p.Net) (sock : Option ℕ) (n : ℕ)
      → (p.send net sock (p.sendrec_buf e)).0 ≡ some n
      → 0 < n
      → work (p.sendrec_ack e n) (p.send net sock (p.sendrec_buf e)).1 < work e net
  pub work-recv :
      (e : p.Engine) (net : p.Net) (sock : Option ℕ) (want : ℕ)
      → work e (p.recv net sock want).1 ≤ work e net
  pub work-recvrec_ack :
      (e : p.Engine) (net : p.Net) (sock : Option ℕ) (want x : ℕ) (bytes : List ℕ)
      → (p.recv net sock want).0 ≡ some (x ∷ bytes)
      → work (p.recvrec_ack e (x ∷ bytes)) (p.recv net sock want).1 < work e net
  pub work-flush :
      (e : p.Engine) (net : p.Net) (bytes : List ℕ)
      → work (p.flush (p.sendapp_ack e bytes)) net ≤ work e net + cost * length bytes
  pub work-recvapp_ack :
      (e : p.Engine) (net : p.Net) (n : ℕ) → work (p.recvapp_ack e n) net ≤ work e net
  pub work-close : (e : p.Engine) (net : p.Net) → work (p.close e) net ≤ work e net + farewell
  pub work-reset :
      (a : p.roots.Anchors) (net : p.Net) (name : List ℕ)
      → work (p.reset (p.set_buffer (p.set_versions (p.init_full a))) name).1 net ≤ start
  pub sendrec_buf-pos :
      (e : p.Engine) → has (p.current_state e) br_ssl_sendrec ≡ true → 0 < length (p.sendrec_buf e)
  pub recvrec_len-pos :
      (e : p.Engine) → has (p.current_state e) br_ssl_recvrec ≡ true → 0 < p.recvrec_len e
  pub offers :
      (e : p.Engine)
      → has (p.current_state e) br_ssl_closed ≡ false
      → (has (p.current_state e) br_ssl_sendrec ≡ true)
        ⊎ ((has (p.current_state e) br_ssl_recvrec ≡ true)
            ⊎ ((has (p.current_state e) br_ssl_sendapp ≡ true) × (0 < p.sendapp_len e)))
  pub wants :
      (e : p.Engine)
      → has (p.current_state e) br_ssl_closed ≡ false
      → (has (p.current_state e) br_ssl_sendrec ≡ true)
        ⊎ ((has (p.current_state e) br_ssl_recvrec ≡ true)
            ⊎ ((has (p.current_state e) br_ssl_recvapp ≡ true) × (0 < length (p.recvapp_buf e))))

module _ (p : Platform) (g : Progress p) where
  -- The work that is left to a connection.
  abbrev pub left : Connection p → World p → ℕ
  left conn w = g.work conn.engine w.net

  -- A step came to an end, with no more work than `bound`.
  abbrev pub Ends : ℕ → Option (Step p) → Type 0
  Ends bound o = (s : Step p) × (o ≡ some s) × (left s.conn s.world ≤ bound)

  -- As `Ends`; and the step failed, ended the connection, or did some of the work.
  abbrev pub Moves : ℕ → Option (Step p) → Type 0
  Moves bound o =
      (s : Step p) × (o ≡ some s)
      × (left s.conn s.world ≤ bound)
      × ((s.ok ≡ false) ⊎ ((s.conn.closed ≡ true) ⊎ (left s.conn s.world < bound)))

  -- `Sends` is `Moves` but for an engine with nothing to send.
  abbrev Sends : Connection p → World p → Option (Step p) → Type 0
  Sends conn w o =
      (s : Step p) × (o ≡ some s)
      × (left s.conn s.world ≤ left conn w)
      × ((length (p.sendrec_buf conn.engine) ≡ 0)
          ⊎ ((s.ok ≡ false) ⊎ (left s.conn s.world < left conn w)))

  send_pending-Sends :
      (fuel : ℕ) (conn : Connection p) (w : World p) (r : Option HttpsResult)
      → left conn w < fuel
      → Sends conn w (send_pending p fuel conn w r)
  unfolding send_pending
  send_pending-Sends zero conn w r enough = absurd (omega arith)
  send_pending-Sends (suc fuel) conn w r enough =
      let buf = p.sendrec_buf conn.engine in
      let (wr, net) = p.send w.net conn.sock buf in
      let w' : World p = record w { net = net } in
      let drop = g.work-send conn.engine w.net conn.sock buf in
      elim (Bool-cases (length buf == 0)) [
        | inl empty ↦ rw (send_pending, empty) (_, refl, omega arith, inl ((==_iff _ _).0 empty))
        | inr full ↦ elim (Option-cases wr) [
          | inl failed ↦ rw (send_pending, full, failed) (_, refl, drop, inr (inl refl))
          | inr (n, sent) ↦ elim (Bool-cases (n == 0)) [
            | inl nothing ↦ rw (send_pending, full, sent, nothing) (_, refl, drop, inr (inl refl))
            | inr more ↦
                let less = g.work-sendrec_ack conn.engine w.net conn.sock n sent (ground arith) in
                let (s, e, b, how) =
                  send_pending-Sends fuel (record conn { engine = p.sendrec_ack conn.engine n }) w'
                    r (omega arith) in
                rw (send_pending, full, sent, more) (s, e, omega arith, inr (inr (omega arith)))
          ]
        ]
      ]

  -- Sending what is pending comes to an end; and if there is something, it fails or does some work.
  pub send_pending_ends :
      (fuel : ℕ) (conn : Connection p) (w : World p) (r : Option HttpsResult)
      → left conn w < fuel
      → 0 < length (p.sendrec_buf conn.engine)
      → (s : Step p) × (send_pending p fuel conn w r ≡ some s)
        × (left s.conn s.world ≤ left conn w)
        × ((s.ok ≡ false) ⊎ (left s.conn s.world < left conn w))
  send_pending_ends fuel conn w r enough pending =
      let (s, e, b, how) = send_pending-Sends fuel conn w r enough in
      (s, e, b, elim how [ inl empty ↦ absurd (omega arith) | inr done ↦ done ])

  recv_pending-Moves :
      (conn : Connection p) (w : World p) (r : Option HttpsResult)
      → 0 < p.recvrec_len conn.engine
      → Moves (left conn w) (some (recv_pending p conn w r))
  unfolding recv_pending
  recv_pending-Moves conn w r wanted =
      let len = p.recvrec_len conn.engine in
      let want = if ltb len recv_chunk then len else recv_chunk in
      let (rd, net) = p.recv w.net conn.sock want in
      let drop = g.work-recv conn.engine w.net conn.sock want in
      let full : (len == 0) ≡ false = ground arith in
      elim (Option-cases rd) [
        | inl failed ↦ rw (recv_pending, full, failed) (_, refl, drop, inl refl)
        | inr ([], ended) ↦ rw (recv_pending, full, ended) (_, refl, drop, inr (inl refl))
        | inr (x ∷ bytes, got) ↦
            let less = g.work-recvrec_ack conn.engine w.net conn.sock want x bytes got in
            rw (recv_pending, full, got) (_, refl, omega (arith, less), inr (inr less))
      ]

  -- A step of the pump that finds the engine closed, sending or wanting a record comes to an end,
  -- and it fails, ends the connection or does some of the work.
  pub drive_records-Moves :
      (fuel : ℕ) (conn : Connection p) (w : World p) (r : Option HttpsResult)
      → left conn w < fuel
      → (has (p.current_state conn.engine) br_ssl_closed ≡ true)
        ⊎ ((has (p.current_state conn.engine) br_ssl_sendrec ≡ true)
            ⊎ (has (p.current_state conn.engine) br_ssl_recvrec ≡ true))
      → Moves (left conn w) (drive_records p fuel conn w r)
  unfolding drive_records
  drive_records-Moves fuel conn w r enough ready =
      let state = p.current_state conn.engine in
      elim (Bool-cases (has state br_ssl_closed)) [
        | inl closed ↦ rw (drive_records, closed) (_, refl, omega arith, inl refl)
        | inr opened ↦ elim (Bool-cases (has state br_ssl_sendrec)) [
          | inl sending ↦
              let (s, e, b, how) =
                send_pending_ends fuel conn w r enough (g.sendrec_buf-pos conn.engine sending) in
              rw (drive_records, opened, sending)
                (s, e, b, elim how [ inl bad ↦ inl bad | inr less ↦ inr (inr less) ])
          | inr quiet ↦ elim ready [
            | inl closed ↦ cc
            | inr (inl sending) ↦ cc
            | inr (inr receiving) ↦
                rw (drive_records, opened, quiet, receiving)
                  (recv_pending-Moves conn w r (g.recvrec_len-pos conn.engine receiving))
          ]
        ]
      ]
