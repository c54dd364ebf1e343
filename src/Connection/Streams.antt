-- ===== src/Connection/Streams.antt =====
-- The streams of application data of an engine, and that the record pump of BearTLS/wm_https.c
-- leaves them alone.
use bear_tls.Base.{
  ℕ, zero, suc, ◌≡◌, Option, none, some, List, [], ◌++◌, arith, if◌then◌else◌, ltb, take, length,
  ◌≤◌, ◌<◌, true,
}
use bear_tls.Connection.Platform.{
  Platform, World, Connection, HttpsResult, has, br_ssl_sendapp, br_ssl_recvapp,
}
use bear_tls.Connection.Records.{Step, send_pending, recv_pending, drive_records, recv_chunk}

-- The two streams of application data that an engine has carried so far: what the program handed
-- over, and what it took out. Records in either direction change neither. As the TLS library's
-- header asks, bytes are handed over only in a state that accepts them, some, and no more than the
-- engine has room for; and they are taken out only in a state that has them, some, and no more than
-- there are.
pub record Streams (p : Platform) : Type 0 where
  pub accepted : p.Engine → List ℕ
  pub delivered : p.Engine → List ℕ
  pub accepted-sendrec_ack : (e : p.Engine) (n : ℕ) → accepted (p.sendrec_ack e n) ≡ accepted e
  pub accepted-recvrec_ack :
      (e : p.Engine) (bytes : List ℕ) → accepted (p.recvrec_ack e bytes) ≡ accepted e
  pub accepted-flush : (e : p.Engine) → accepted (p.flush e) ≡ accepted e
  pub accepted-sendapp_ack :
      (e : p.Engine) (bytes : List ℕ)
      → has (p.current_state e) br_ssl_sendapp ≡ true
      → 0 < length bytes
      → length bytes ≤ p.sendapp_len e
      → accepted (p.sendapp_ack e bytes) ≡ accepted e ++ bytes
  pub delivered-sendrec_ack : (e : p.Engine) (n : ℕ) → delivered (p.sendrec_ack e n) ≡ delivered e
  pub delivered-recvrec_ack :
      (e : p.Engine) (bytes : List ℕ) → delivered (p.recvrec_ack e bytes) ≡ delivered e
  pub delivered-recvapp_ack :
      (e : p.Engine) (n : ℕ)
      → has (p.current_state e) br_ssl_recvapp ≡ true
      → 0 < n
      → n ≤ length (p.recvapp_buf e)
      → delivered (p.recvapp_ack e n) ≡ delivered e ++ take n (p.recvapp_buf e)

abbrev count_of : Option ℕ → ℕ
count_of none = 0
count_of (some n) = n

abbrev bytes_in : Option (List ℕ) → List ℕ
bytes_in none = []
bytes_in (some bytes) = bytes

-- The pump keeps whatever sending and receiving of records keeps.
module _ (p : Platform) (view : p.Engine → List ℕ)
    (by_send : (e : p.Engine) (n : ℕ) → view (p.sendrec_ack e n) ≡ view e)
    (by_recv : (e : p.Engine) (bytes : List ℕ) → view (p.recvrec_ack e bytes) ≡ view e) where
  send_pending_keeps :
      (fuel : ℕ) (conn : Connection p) (w : World p) (r : Option HttpsResult) (s : Step p)
      → send_pending p fuel conn w r ≡ some s
      → view s.conn.engine ≡ view conn.engine
  unfolding send_pending
  send_pending_keeps zero conn w r s e = cc
  send_pending_keeps (suc fuel) conn w r s e =
      let (wr, net) = p.send w.net conn.sock (p.sendrec_buf conn.engine) in
      let n = count_of wr in
      ground (
        arith,
        by_send conn.engine n,
        send_pending_keeps fuel (record conn { engine = p.sendrec_ack conn.engine n })
            (record w { net = net }) r s,
      )

  recv_pending_keeps :
      (conn : Connection p) (w : World p) (r : Option HttpsResult)
      → view (recv_pending p conn w r).conn.engine ≡ view conn.engine
  unfolding recv_pending
  recv_pending_keeps conn w r =
      let len = p.recvrec_len conn.engine in
      let want = if ltb len recv_chunk then len else recv_chunk in
      let (rd, net) = p.recv w.net conn.sock want in
      ground (arith, by_recv conn.engine (bytes_in rd))

  pub drive_records_keeps :
      (fuel : ℕ) (conn : Connection p) (w : World p) (r : Option HttpsResult) (s : Step p)
      → drive_records p fuel conn w r ≡ some s
      → view s.conn.engine ≡ view conn.engine
  unfolding drive_records
  drive_records_keeps fuel conn w r s e =
      ground (arith, send_pending_keeps fuel conn w r s, recv_pending_keeps conn w r)
