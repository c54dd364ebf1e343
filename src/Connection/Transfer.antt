-- ===== src/Connection/Transfer.antt =====
-- `wm_tls_write` and `wm_tls_read` of BearTLS/wm_https.c.
use bear_tls.Base.{
  ℕ, zero, suc, ◌+◌, ◌==◌, ◌||◌, Bool, true, false, not, Option, none, some, List, [],
  if◌then◌else◌, ltb, length, take, drop,
}
use bear_tls.Connection.Platform.{
  Platform, World, Connection, HttpsResult, zero_result, set_ok, set_tls_error, set_http_bytes, has,
  br_ssl_closed, br_ssl_sendapp, br_ssl_recvapp,
}
use bear_tls.Connection.Records.{drive_records}

module _ (p : Platform) where
  -- `bytes_written` is what the caller's counter holds.
  pub record Written : Type 0 where
    pub ok : Bool
    pub conn : Connection p
    pub world : World p
    pub result : Option HttpsResult
    pub bytes_written : ℕ

  -- `min(data_len - sent, len)` while the engine takes application data, and 0 otherwise.
  unfoldable pub take_len : Connection p → ℕ → ℕ
  take_len conn left =
      let len = p.sendapp_len conn.engine in
      if has (p.current_state conn.engine) br_ssl_sendapp
      then if ltb len left then len else left
      else 0

  -- The engine after it took over a chunk.
  unfoldable pub push_data : Connection p → List ℕ → Connection p
  push_data conn chunk = record conn { engine = p.flush (p.sendapp_ack conn.engine chunk) }

  -- The loop with `sent` bytes taken over, of which `src` is what is left.
  unfoldable pub write_loop :
      ℕ → List ℕ → ℕ → Connection p → World p → Option HttpsResult → Option Written
  write_loop zero src sent conn w result = none
  write_loop (suc fuel) src sent conn w result =
      let n = take_len conn (length src) in
      elim (length src == 0) [
        | true ↦ some (record {
          ok = true;
          conn = conn;
          world = w;
          result = set_ok 1 result;
          bytes_written = sent;
        })
        | false ↦ elim (has (p.current_state conn.engine) br_ssl_closed) [
          | true ↦ some (record {
            ok = false;
            conn = record conn { closed = true };
            world = w;
            result = set_tls_error (p.last_error conn.engine) result;
            bytes_written = sent;
          })
          | false ↦ elim (n == 0) [
            | false ↦ write_loop fuel (drop n src) (sent + n) (push_data conn (take n src)) w result
            | true ↦ elim (drive_records p fuel conn w result) [
              | none ↦ none
              | some s ↦ elim (not s.ok || s.conn.closed) [
                | true ↦ some (record {
                  ok = false;
                  conn = s.conn;
                  world = s.world;
                  result = s.result;
                  bytes_written = sent;
                })
                | false ↦ write_loop fuel src sent s.conn s.world s.result
              ]
            ]
          ]
        ]
      ]

  -- `conn` is not null; `none` for `data` is a null pointer with a length above 0.
  unfoldable pub tls_write :
      ℕ → Connection p → Option (List ℕ) → World p → Option HttpsResult → Option Written
  tls_write fuel conn none w result = some (record {
    ok = false;
    conn = conn;
    world = w;
    result = zero_result result;
    bytes_written = 0;
  })
  tls_write fuel conn (some bytes) w result = write_loop fuel bytes 0 conn w (zero_result result)

  -- `bytes` is what was copied to the caller's buffer, and their number is `*bytes_read`.
  pub record ReadStep : Type 0 where
    pub ok : Bool
    pub conn : Connection p
    pub world : World p
    pub result : Option HttpsResult
    pub bytes : List ℕ

  -- The bytes that are at hand for the caller, at most `buffer_size`.
  unfoldable pub at_hand : Connection p → ℕ → List ℕ
  at_hand conn buffer_size =
      if has (p.current_state conn.engine) br_ssl_recvapp
      then take buffer_size (p.recvapp_buf conn.engine)
      else []

  -- `result == 0 || result->tls_error == 0`, where the engine is closed.
  unfoldable pub closed_ok : Option HttpsResult → ℕ → Bool
  closed_ok none err = true
  closed_ok (some r) err = err == 0

  unfoldable pub read_loop : ℕ → ℕ → Connection p → World p → Option HttpsResult → Option ReadStep
  read_loop zero buffer_size conn w result = none
  read_loop (suc fuel) buffer_size conn w result =
      let err = p.last_error conn.engine in
      let bytes = at_hand conn buffer_size in
      elim (has (p.current_state conn.engine) br_ssl_closed) [
        | true ↦ some (record {
          ok = closed_ok result err;
          conn = record conn { closed = true };
          world = w;
          result = set_ok (if err == 0 then 1 else 0) (set_tls_error err result);
          bytes = [];
        })
        | false ↦ elim (length bytes == 0) [
          | false ↦ some (record {
            ok = true;
            conn = record conn { engine = p.recvapp_ack conn.engine (length bytes) };
            world = w;
            result = set_http_bytes (length bytes) (set_ok 1 result);
            bytes = bytes;
          })
          | true ↦ elim (drive_records p fuel conn w result) [
            | none ↦ none
            | some s ↦ elim (not s.ok) [
              | true ↦ some (record {
                ok = false;
                conn = s.conn;
                world = s.world;
                result = s.result;
                bytes = [];
              })
              | false ↦ elim s.conn.closed [
                | true ↦ some (record {
                  ok = true;
                  conn = s.conn;
                  world = s.world;
                  result = set_ok 1 s.result;
                  bytes = [];
                })
                | false ↦ read_loop fuel buffer_size s.conn s.world s.result
              ]
            ]
          ]
        ]
      ]

  -- `conn` is not null; `has_buffer` tells of the pointer `buffer`.
  unfoldable pub tls_read :
      ℕ → Connection p → Bool → ℕ → World p → Option HttpsResult → Option ReadStep
  tls_read fuel conn has_buffer buffer_size w result =
      let started = read_loop fuel buffer_size conn w (zero_result result) in
      if not has_buffer || buffer_size == 0
      then some
          (record { ok = false; conn = conn; world = w; result = zero_result result; bytes = [] })
      else started
