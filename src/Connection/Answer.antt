-- ===== src/Connection/Answer.antt =====
-- The answer of a whole exchange of BearTLS/wm_https.c: no write leaves the caller's array, and a
-- call that returns 1 leaves a text in it.
use bear_tls.Base.{
  ℕ, ◌<◌, ◌≡◌, refl, ◌⊎◌, true, Option, none, some, List, [], ◌∷◌, arith, ltb, ltb→lt, leb, leb→lt,
  length, Bool-cases, Option-cases, inl, inr, store-append,
}
use bear_tls.Connection.Platform.{Platform, World, Connection, HttpsResult, zero_result}
use bear_tls.Connection.Transfer.{tls_write}
use bear_tls.Connection.Open.{Opened, tls_open, tls_close}
use bear_tls.Connection.Streams.{Streams}
use bear_tls.Connection.Response.{HoldsText, receive_loop-Gets}
use bear_tls.Connection.Exchange.{
  Outcome, out_of_fuel, returned, Exchanged, Received, close_failed, finish_exchange,
  receive_and_finish, exchange_on, opened_exchange, exchange_internal,
}

module _ (p : Platform) (v : Streams p) where
  -- The fuel may run out; else the call returns, without a fault, and the array is as large as
  -- before. It returns 0, or the array holds a text that is not empty.
  abbrev pub Answers : ℕ → Outcome (Exchanged p) → Type 0
  Answers size o =
      (o ≡ out_of_fuel)
      ⊎ ((x : Exchanged p) × (o ≡ returned x)
          × (length x.response ≡ size)
          × ((x.ok ≡ 0)
              ⊎ ((x.ok ≡ 1)
                  × (text : List ℕ) × HoldsText size text x.response
                  × (0 < length text))))

  finish_exchange-Answers :
      (fuel size : ℕ) (r : Received p) (text : List ℕ)
      → HoldsText size text r.response
      → r.count ≡ length text
      → Answers size (finish_exchange p fuel r)
  unfolding finish_exchange
  finish_exchange-Answers fuel size r text holds count =
      elim (Option-cases (tls_close p fuel (some r.conn) r.world)) [
        | inl stuck ↦ inl (rw (finish_exchange, stuck) refl)
        | inr (w, closed) ↦ elim (Bool-cases r.failed) [
          | inl bad ↦ rw (finish_exchange, closed, bad) (inr (_, refl, holds.2, inl refl))
          | inr good ↦ elim (Bool-cases (ltb 0 r.count)) [
            | inl there ↦
                rw (finish_exchange, closed, good, there)
                  (inr (
                    _,
                    refl,
                    holds.2,
                    inr (refl, text, holds, omega (arith, count, ltb→lt 0 r.count there)),
                  ))
            | inr nothing ↦
                rw (finish_exchange, closed, good, nothing) (inr (_, refl, holds.2, inl refl))
          ]
        ]
      ]

  receive_and_finish-Answers :
      (fuel size : ℕ) (cells : List ℕ) (conn : Connection p) (w : World p) (r : Option HttpsResult)
      → HoldsText size [] cells
      → 1 < size
      → Answers size (receive_and_finish p fuel size cells conn w r)
  unfolding receive_and_finish
  receive_and_finish-Answers fuel size cells conn w r holds room =
      elim (receive_loop-Gets p v fuel size [] cells conn w r holds (omega arith)) [
        | inl dry ↦ inl (rw (receive_and_finish, dry) refl)
        | inr (s, e, more, h, count, stream) ↦
            rw (receive_and_finish, e) (finish_exchange-Answers fuel size s more h count)
      ]

  exchange_on-Answers :
      (fuel : ℕ) (text : List ℕ) (size : ℕ) (cells : List ℕ) (conn : Connection p) (w : World p)
      (r : Option HttpsResult)
      → HoldsText size [] cells
      → 1 < size
      → Answers size (exchange_on p fuel text size cells conn w r)
  unfolding exchange_on close_failed
  exchange_on-Answers fuel text size cells conn w r holds room =
      elim (Option-cases (tls_write p fuel conn (some text) w r)) [
        | inl stuck ↦ inl (rw (exchange_on, stuck) refl)
        | inr (s, sent) ↦ elim (Bool-cases s.ok) [
          | inl good ↦
              rw (exchange_on, sent, good)
                (receive_and_finish-Answers fuel size cells s.conn s.world s.result holds room)
          | inr bad ↦ elim (Option-cases (tls_close p fuel (some s.conn) s.world)) [
            | inl stuck ↦ inl (rw (exchange_on, sent, bad, close_failed, stuck) refl)
            | inr (w2, closed) ↦
                rw (exchange_on, sent, bad, close_failed, closed) (inr (_, refl, holds.2, inl refl))
          ]
        ]
      ]

  opened_exchange-Answers :
      (fuel : ℕ) (text : List ℕ) (size : ℕ) (cells : List ℕ) (o : Option (Opened p))
      → HoldsText size [] cells
      → 1 < size
      → Answers size (opened_exchange p fuel text size cells o)
  unfolding opened_exchange
  opened_exchange-Answers fuel text size cells none holds room = inl refl
  opened_exchange-Answers fuel text size cells (some o) holds room =
      elim (Option-cases (Opened.conn o)) [
        | inl no_conn ↦ rw (opened_exchange, no_conn) (inr (_, refl, holds.2, inl refl))
        | inr (conn, there) ↦
            rw (opened_exchange, there)
              (exchange_on-Answers fuel text size cells conn o.world o.result holds room)
      ]

  -- For an engine with its streams, and where the array has `size` cells, an exchange whose fuel
  -- lasts returns without a write outside of the array, which keeps its size. It returns 0, or it
  -- returns 1 and the array begins with a text that is not empty and a NUL.
  pub exchange_internal-Answers :
      (fuel : ℕ) (host : Option (List ℕ)) (port : ℕ) (sni text : Option (List ℕ))
      (response : List ℕ) (size : ℕ) (w : World p) (r : Option HttpsResult)
      → length response ≡ size
      → Answers size (exchange_internal p fuel host port sni text response size w r)
  unfolding exchange_internal
  exchange_internal-Answers fuel none port sni text response size w r l = inr (_, refl, l, inl refl)
  exchange_internal-Answers fuel (some host) port sni none response size w r l =
      inr (_, refl, l, inl refl)
  exchange_internal-Answers fuel (some host) port sni (some text) [] size w r l =
      elim (Bool-cases (leb size 1)) [
        | inl small ↦ rw (exchange_internal, small) (inr (_, refl, l, inl refl))
        | inr large ↦ absurd (omega (arith, l, leb→lt _ _ large))
      ]
  exchange_internal-Answers fuel (some host) port sni (some text) (c ∷ cs) size w r l =
      elim (Bool-cases (leb size 1)) [
        | inl small ↦ rw (exchange_internal, small) (inr (_, refl, l, inl refl))
        | inr large ↦
            rw (exchange_internal, large, store-append [] cs c 0 0 refl)
              (opened_exchange-Answers fuel text size (0 ∷ cs)
                (tls_open p fuel (some host) port sni true (zero_result r) w) (cs, refl, l)
                (leb→lt _ _ large))
      ]
