-- ===== src/Connection/Exchange.antt =====
-- `wm_tls_exchange_internal`, `wm_https_request`, `wm_https_get` and `wm_tls_exchange` of
-- BearTLS/wm_https.c.
use bear_tls.Base.{
  ℕ, zero, suc, ◌+◌, ◌-◌, ◌==◌, ◌≡◌, ◌||◌, Bool, true, false, not, Option, none, some, List,
  if◌then◌else◌, ltb, leb, length, memcpy, store, codes, c_string,
}
use bear_tls.Request.{Parts, build_request}
use bear_tls.Connection.Platform.{
  Platform, World, Connection, HttpsResult, zero_result, set_ok, set_http_bytes,
}
use bear_tls.Connection.Open.{Opened, tls_open, tls_close}
use bear_tls.Connection.Transfer.{tls_write, tls_read}

abbrev pub request_size : ℕ
request_size = 4096

-- `_snprintf` and the like aside, every array access of these functions is in range, or the outcome
-- is `fault`. `out_of_fuel` is the end of the fuel.
pub data Outcome (A : Type 0) : Type 0 where
  fault out_of_fuel : Outcome A
  returned : A → Outcome A

pub returned_inj : {A : Type 0} {a b : A} → returned a ≡ returned b → a ≡ b
returned_inj e = cc

module _ (p : Platform) where
  -- `response` holds the cells of the caller's array.
  pub record Exchanged : Type 0 where
    pub ok : ℕ
    pub response : List ℕ
    pub world : World p
    pub result : Option HttpsResult

  -- The loop that reads, before the connection is closed; `count` is `response_len`.
  pub record Received : Type 0 where
    pub failed : Bool
    pub response : List ℕ
    pub count : ℕ
    pub conn : Connection p
    pub world : World p
    pub result : Option HttpsResult

  -- Storing what one read gave, and the NUL behind it.
  unfoldable pub store_read : List ℕ → ℕ → List ℕ → Option (List ℕ)
  store_read response count bytes = elim (memcpy response count bytes) [
    | none ↦ none
    | some response' ↦ store response' (count + length bytes) 0
  ]

  unfoldable pub receive_loop :
      ℕ → ℕ → List ℕ → ℕ → Connection p → World p → Option HttpsResult → Outcome Received
  receive_loop zero response_size response count conn w result = out_of_fuel
  receive_loop (suc fuel) response_size response count conn w result =
      elim (tls_read p fuel conn true (response_size - count - 1) w result) [
        | none ↦ out_of_fuel
        | some r ↦ elim (not r.ok || length r.bytes == 0) [
          | true ↦ returned (record {
            failed = not r.ok;
            response = response;
            count = count;
            conn = r.conn;
            world = r.world;
            result = r.result;
          })
          | false ↦ elim (store_read response count r.bytes) [
            | none ↦ fault
            | some response' ↦ elim (leb (response_size - 1) (count + length r.bytes)) [
              | true ↦ returned (record {
                failed = false;
                response = response';
                count = count + length r.bytes;
                conn = r.conn;
                world = r.world;
                result = r.result;
              })
              | false ↦
                  receive_loop fuel response_size response' (count + length r.bytes) r.conn r.world
                    r.result
            ]
          ]
        ]
      ]

  unfoldable pub close_failed :
      ℕ → Connection p → List ℕ → World p → Option HttpsResult → Outcome Exchanged
  close_failed fuel conn response w result = elim (tls_close p fuel (some conn) w) [
    | none ↦ out_of_fuel
    | some w' ↦ returned (record { ok = 0; response = response; world = w'; result = result })
  ]

  -- `ok` is 1 exactly if some read gave bytes.
  unfoldable pub finish_exchange : ℕ → Received → Outcome Exchanged
  finish_exchange fuel r =
      let ok = if ltb 0 r.count then 1 else 0 in
      elim (tls_close p fuel (some r.conn) r.world) [
        | none ↦ out_of_fuel
        | some w ↦
            if r.failed
            then returned (record { ok = 0; response = r.response; world = w; result = r.result })
            else returned (record {
              ok = ok;
              response = r.response;
              world = w;
              result = set_http_bytes r.count (set_ok ok r.result);
            })
      ]

  unfoldable pub receive_and_finish :
      ℕ → ℕ → List ℕ → Connection p → World p → Option HttpsResult → Outcome Exchanged
  receive_and_finish fuel response_size response conn w result =
      elim (receive_loop fuel response_size response 0 conn w result) [
        | fault ↦ fault
        | out_of_fuel ↦ out_of_fuel
        | returned r ↦ finish_exchange fuel r
      ]

  unfoldable pub exchange_on :
      ℕ → List ℕ → ℕ → List ℕ → Connection p → World p → Option HttpsResult → Outcome Exchanged
  exchange_on fuel text response_size response conn w result =
      elim (tls_write p fuel conn (some text) w result) [
        | none ↦ out_of_fuel
        | some s ↦
            if s.ok
            then receive_and_finish fuel response_size response s.conn s.world s.result
            else close_failed fuel s.conn response s.world s.result
      ]

  unfoldable pub opened_exchange : ℕ → List ℕ → ℕ → List ℕ → Option (Opened p) → Outcome Exchanged
  opened_exchange fuel text response_size response none = out_of_fuel
  opened_exchange fuel text response_size response (some o) = elim (Opened.conn o) [
    | none ↦ returned (record { ok = 0; response = response; world = o.world; result = o.result })
    | some conn ↦ exchange_on fuel text response_size response conn o.world o.result
  ]

  -- A call that is refused before anything is done.
  abbrev pub refuse : List ℕ → World p → Option HttpsResult → Outcome Exchanged
  refuse response w result =
      returned (record { ok = 0; response = response; world = w; result = result })

  -- The pointers `host`, `sni_host`, `request_text` and `result` may be null; `response` is not
  -- null and has at least one cell.
  unfoldable pub exchange_internal :
      ℕ
      → Option (List ℕ)
      → ℕ
      → Option (List ℕ)
      → Option (List ℕ)
      → List ℕ
      → ℕ
      → World p
      → Option HttpsResult
      → Outcome Exchanged
  exchange_internal fuel none port sni_host request_text response response_size w result =
      refuse response w (zero_result result)
  exchange_internal fuel (some host) port sni_host none response response_size w result =
      refuse response w (zero_result result)
  exchange_internal fuel (some host) port sni_host (some text) response response_size w result =
      let zeroed = zero_result result in
      if leb response_size 1 then refuse response w zeroed else elim (store response 0 0) [
        | none ↦ fault
        | some response' ↦
            opened_exchange fuel text response_size response'
              (tls_open p fuel (some host) port sni_host true zeroed w)
      ]

  -- `stack` is what the local array `request` holds before; the pointer `host` is not null.
  unfoldable pub https_request :
      ℕ → Parts → List ℕ → List ℕ → ℕ → World p → Option HttpsResult → Outcome Exchanged
  https_request fuel r stack response response_size w result = elim r.path [
    | none ↦ refuse response w result
    | some path ↦
        if leb response_size 1
        then refuse response w result
        else elim (build_request r stack request_size) [
          | none ↦ fault
          | some request ↦
              exchange_internal fuel (some r.host) r.port (some r.host) (some (c_string request))
                response response_size w result
        ]
  ]

  unfoldable pub https_get :
      ℕ
      → List ℕ
      → ℕ
      → List ℕ
      → List ℕ
      → List ℕ
      → ℕ
      → World p
      → Option HttpsResult
      → Outcome Exchanged
  https_get fuel host port path stack response response_size w result =
      https_request fuel
        (record {
          host = host;
          port = port;
          method = some (codes "GET");
          path = some path;
          extra_headers = none;
          body = none;
        })
        stack response response_size w result

  unfoldable pub tls_exchange :
      ℕ
      → Option (List ℕ)
      → ℕ
      → Option (List ℕ)
      → Option (List ℕ)
      → List ℕ
      → ℕ
      → World p
      → Option HttpsResult
      → Outcome Exchanged
  tls_exchange fuel host port sni_host request_text response response_size w result =
      exchange_internal fuel host port sni_host request_text response response_size w result
