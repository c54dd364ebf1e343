-- ===== src/Connection/Response.antt =====
-- What the exchange of BearTLS/wm_https.c leaves in the caller's array.
use bear_tls.Base.{
  ℕ, zero, suc, ◌+◌, ◌-◌, ◌≤◌, ◌<◌, ◌≡◌, refl, sym, ap, ◌∙◌, ◌==◌, ◌||◌, ◌⊎◌, Bool, true, false,
  not, Option, some, List, [], ◌∷◌, ◌++◌, arith, leb, leb→lt, length, Bool-cases, Option-cases, inl,
  inr, memcpy, store, length-append, memcpy-append, store-append, drop-cons, append_assoc,
  append-nil,
}
use bear_tls.Connection.Platform.{Platform, World, Connection, HttpsResult}
use bear_tls.Connection.Transfer.{tls_read}
use bear_tls.Connection.Streams.{Streams}
use bear_tls.Connection.Delivery.{tls_read-delivered}
use bear_tls.Connection.Exchange.{
  Outcome, out_of_fuel, returned, Received, store_read, receive_loop,
}

-- The array of `size` cells holds `text`, and a NUL behind it.
abbrev pub HoldsText : ℕ → List ℕ → List ℕ → Type 0
HoldsText size text cells = (rest : List ℕ) × (cells ≡ text ++ (0 ∷ rest)) × (length cells ≡ size)

no_bytes :
    (ok : Bool) (bytes : List ℕ) → ok ≡ true → (not ok || length bytes == 0) ≡ true → bytes ≡ []
no_bytes false bytes fine over = cc
no_bytes true [] fine over = refl
no_bytes true (b ∷ bytes) fine over = absurd (ground arith)

module _ (p : Platform) where
  -- Bytes that leave room for the NUL go behind the text.
  store_read-HoldsText :
      (size : ℕ) (text cells bytes : List ℕ)
      → HoldsText size text cells
      → length text + length bytes + 1 ≤ size
      → (out : List ℕ) × (store_read p cells (length text) bytes ≡ some out)
        × HoldsText size (text ++ bytes) out
  unfolding store_read
  store_read-HoldsText size text cells bytes (rest, e, l) room =
      let lt = length-append text (0 ∷ rest) in
      let lc : length cells ≡ length text + length (0 ∷ rest) = ap length e ∙ lt in
      let fits : length bytes ≤ length (0 ∷ rest) = omega (arith, lc, l) in
      let (y, ys, d, ly) = drop-cons (length bytes) (0 ∷ rest) (omega (arith, lc, l)) in
      let copied : memcpy cells (length text) bytes ≡ some ((text ++ bytes) ++ (y ∷ ys)) =
        rw e (memcpy-append text (0 ∷ rest) bytes (length text) refl fits)
        ∙ ap (λ t. some (text ++ (bytes ++ t))) d
        ∙ ap some (sym (append_assoc text bytes (y ∷ ys))) in
      let ended : store ((text ++ bytes) ++ (y ∷ ys)) (length text + length bytes) 0
          ≡ some ((text ++ bytes) ++ (0 ∷ ys)) =
        store-append (text ++ bytes) ys y 0 (length text + length bytes)
          (sym (length-append text bytes)) in
      (
        (text ++ bytes) ++ (0 ∷ ys),
        rw (copied, store_read) ended,
        (
          ys,
          refl,
          omega
              (arith, length-append (text ++ bytes) (0 ∷ ys), length-append text bytes, ly, lc, l),
        ),
      )

  module _ (v : Streams p) where
    -- What the reading loop leaves, if its fuel lasts: the array holds the text so far and all that
    -- the engine delivered since.
    abbrev pub Gets : ℕ → List ℕ → List ℕ → Outcome (Received p) → Type 0
    Gets size text before o =
        (o ≡ out_of_fuel)
        ⊎ ((s : Received p) × (o ≡ returned s)
            × (more : List ℕ) × HoldsText size (text ++ more) s.response
            × (s.count ≡ length (text ++ more))
            × (v.delivered s.conn.engine ≡ before ++ more))

    more-Gets :
        (size : ℕ) (text bytes before : List ℕ) (o : Outcome (Received p))
        → Gets size (text ++ bytes) (before ++ bytes) o
        → Gets size text before o
    more-Gets size text bytes before o (inl dry) = inl dry
    more-Gets size text bytes before o (inr (s, e, more, holds, count, stream)) = inr (
      s,
      e,
      bytes ++ more,
      rw (← append_assoc text bytes more) holds,
      rw (← append_assoc text bytes more) count,
      stream ∙ append_assoc before bytes more,
    )

    -- For an engine with its streams, and from an array that holds a text, with room for more: the
    -- reading loop never leaves the array, and if it returns, the array holds that text, all bytes
    -- that the engine delivered meanwhile, and a NUL; the count is the length of both.
    pub receive_loop-Gets :
        (fuel size : ℕ) (text cells : List ℕ) (conn : Connection p) (w : World p)
        (r : Option HttpsResult)
        → HoldsText size text cells
        → length text + 1 < size
        → Gets size text
            (v.delivered conn.engine)
            (receive_loop p fuel size cells (length text) conn w r)
    unfolding receive_loop
    receive_loop-Gets zero size text cells conn w r holds room = inl refl
    receive_loop-Gets (suc fuel) size text cells conn w r holds room =
        let count = length text in
        elim (Option-cases (tls_read p fuel conn true (size - count - 1) w r)) [
          | inl stuck ↦ inl (rw (receive_loop, stuck) refl)
          | inr (q, got) ↦
              let (stream, fits, good) =
                tls_read-delivered p v fuel conn true (size - count - 1) w r q got in
              elim (Bool-cases (not q.ok || length q.bytes == 0)) [
                | inl over ↦
                    let none_read : q.bytes ≡ [] = elim good [
                      | inr nothing ↦ nothing
                      | inl fine ↦ no_bytes q.ok q.bytes fine over
                    ] in
                    inr (
                      record {
                        failed = not q.ok;
                        response = cells;
                        count = count;
                        conn = q.conn;
                        world = q.world;
                        result = q.result;
                      },
                      rw (receive_loop, got, over) refl,
                      [],
                      rw (append-nil text) holds,
                      ap length (sym (append-nil text)),
                      rw none_read at stream,
                    )
                | inr more ↦
                    let (cells', stored, holds') =
                      store_read-HoldsText size text cells q.bytes holds (omega arith) in
                    elim (Bool-cases (leb (size - 1) (count + length q.bytes))) [
                      | inl full ↦ more-Gets size text q.bytes (v.delivered conn.engine) _ (
                          inr (
                            record {
                              failed = false;
                              response = cells';
                              count = count + length q.bytes;
                              conn = q.conn;
                              world = q.world;
                              result = q.result;
                            },
                            rw (receive_loop, got, more, stored, full) refl,
                            [],
                            rw (append-nil (text ++ q.bytes)) holds',
                            rw (append-nil (text ++ q.bytes)) (sym (length-append text q.bytes)),
                            stream ∙ sym (append-nil _),
                          ))
                      | inr left ↦
                          let rest =
                            receive_loop-Gets fuel size (text ++ q.bytes) cells' q.conn q.world
                              q.result holds'
                              (omega (arith, leb→lt _ _ left, length-append text q.bytes)) in
                          more-Gets size text q.bytes (v.delivered conn.engine) _ (
                            rw (receive_loop, got, more, stored, left)
                              (rw (stream, length-append text q.bytes) at rest))
                    ]
              ]
        ]
