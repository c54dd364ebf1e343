-- ===== src/Connection/Records.antt =====
-- The record pump of BearTLS/wm_https.c: `wm_tls_send_pending_records`,
-- `wm_tls_recv_pending_records` and `wm_tls_drive_records`.
use bear_tls.Base.{
  ℕ, zero, suc, ◌==◌, Bool, true, false, Option, none, some, [], ◌∷◌, if◌then◌else◌, ltb, length,
}
use bear_tls.Connection.Platform.{
  Platform, World, Connection, HttpsResult, set_wsa_error, set_tls_error, has, br_ssl_closed,
  br_ssl_sendrec, br_ssl_recvrec,
}

abbrev pub recv_chunk : ℕ
recv_chunk = 1024

module _ (p : Platform) where
  -- What a call of the pump leaves: `ok` is its return value.
  pub record Step : Type 0 where
    pub ok : Bool
    pub conn : Connection p
    pub world : World p
    pub result : Option HttpsResult

  -- The loop runs on fuel; `none` is the end of the fuel.
  unfoldable pub send_pending : ℕ → Connection p → World p → Option HttpsResult → Option Step
  send_pending zero conn w result = none
  send_pending (suc fuel) conn w result =
      let buf = p.sendrec_buf conn.engine in
      let (wr, net) = p.send w.net conn.sock buf in
      let w' : World p = record w { net = net } in
      let failed : Step = record {
        ok = false;
        conn = conn;
        world = w';
        result = set_wsa_error (p.wsa_error net) result;
      } in
      elim (length buf == 0) [
        | true ↦ some (record { ok = true; conn = conn; world = w; result = result })
        | false ↦ elim wr [
          | none ↦ some failed
          | some n ↦ elim (n == 0) [
            | true ↦ some failed
            | false ↦
                send_pending fuel (record conn { engine = p.sendrec_ack conn.engine n }) w' result
          ]
        ]
      ]

  unfoldable pub recv_pending : Connection p → World p → Option HttpsResult → Step
  recv_pending conn w result =
      let len = p.recvrec_len conn.engine in
      let want = if ltb len recv_chunk then len else recv_chunk in
      let (rd, net) = p.recv w.net conn.sock want in
      let w' : World p = record w { net = net } in
      elim (len == 0) [
        | true ↦ record { ok = true; conn = conn; world = w; result = result }
        | false ↦ elim rd [
          | none ↦ record {
            ok = false;
            conn = conn;
            world = w';
            result = set_wsa_error (p.wsa_error net) result;
          }
          | some [] ↦ record {
            ok = true;
            conn = record conn { closed = true };
            world = w';
            result = result;
          }
          | some (x ∷ bytes) ↦ record {
            ok = true;
            conn = record conn { engine = p.recvrec_ack conn.engine (x ∷ bytes) };
            world = w';
            result = result;
          }
        ]
      ]

  unfoldable pub drive_records : ℕ → Connection p → World p → Option HttpsResult → Option Step
  drive_records fuel conn w result =
      let state = p.current_state conn.engine in
      if has state br_ssl_closed
      then some (record {
        ok = false;
        conn = record conn { closed = true };
        world = w;
        result = set_tls_error (p.last_error conn.engine) result;
      })
      else if has state br_ssl_sendrec
      then send_pending fuel conn w result
      else if has state br_ssl_recvrec
      then some (recv_pending conn w result)
      else some (record { ok = true; conn = conn; world = w; result = result })
