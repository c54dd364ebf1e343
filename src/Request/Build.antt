-- ===== src/Request/Build.antt =====
-- The whole of `wm_https_build_request` (BearTLS/wm_https.c) against the HTTP/1.1 request that it
-- is meant to write.
use bear_tls.Base.{
  ℕ, suc, zero, ◌+◌, ◌-◌, ◌<◌, ◌≡◌, refl, ap, Option, none, some, List, [], ◌∷◌, ◌++◌, append_assoc,
  append-nil, arith, length, take, length-append, take_all, inl, inr, ◌==◌, ==_iff, ◌||◌,
  store-append, Bool-cases, ltb, lt→ltb, if◌then◌else◌, codes, decimal, length-decimal,
}
use bear_tls.Request.{
  Writer, Parts, append_request_data, append_headers, append_body, build_request, write_request,
  given_or, text_of, is_given, crlf, fixed_headers, host_intro, include_port, snprintf,
}
use bear_tls.Request.Append.{
  IsHolding, Leaves, append_request_text-Leaves, append_request_data-Leaves, append_if-Leaves,
  Leaves-bind,
}

abbrev pub port_suffix : ℕ → List ℕ
port_suffix port = if port == 443 || port == 80 then [] else codes ":" ++ decimal port

abbrev pub header_lines : Option (List ℕ) → List ℕ
header_lines none = []
header_lines (some []) = []
header_lines (some (c ∷ cs)) = crlf ++ (c ∷ cs)

abbrev pub length_line : List ℕ → List ℕ
length_line [] = []
length_line (c ∷ cs) = crlf ++ (codes "Content-Length: " ++ decimal (length (c ∷ cs)))

-- The request as one text: request line, host, fixed headers, the caller's headers, the length of
-- the body where there is one, an empty line, the body.
abbrev pub request_text : Parts → List ℕ
request_text r =
    given_or r.method (codes "GET")
    ++ (codes " "
        ++ (given_or r.path (codes "/")
            ++ (host_intro
                ++ (r.host
                    ++ (port_suffix r.port
                        ++ (fixed_headers
                            ++ (header_lines r.extra_headers
                                ++ (length_line (text_of r.body)
                                    ++ ((crlf ++ crlf) ++ text_of r.body)))))))))

-- The formatted port and length fit their buffers, so nothing of them is cut.
port_piece :
    (port : ℕ)
    → (if include_port port then snprintf 16 (codes ":" ++ decimal port) else []) ≡ port_suffix port
port_piece port =
    rw
      (take_all 15 (codes ":" ++ decimal port)
        (omega (arith, length-append (codes ":") (decimal port), length-decimal port)))
      (elim (Bool-cases (port == 443 || port == 80)) [ inl e ↦ rw e | inr e ↦ rw e ])

header_piece :
    (h : Option (List ℕ))
    → (if is_given h then crlf else []) ++ (if is_given h then text_of h else []) ≡ header_lines h
header_piece none = refl
header_piece (some []) = refl
header_piece (some (c ∷ cs)) = refl

length_piece :
    (body : List ℕ)
    → (if ltb 0 (length body)
        then snprintf 32 (crlf ++ (codes "Content-Length: " ++ decimal (length body)))
        else [])
      ≡ length_line body
length_piece [] = refl
length_piece (c ∷ cs) = rw (lt→ltb 0 (suc (length cs)) (omega arith)) (
    take_all 31 (crlf ++ (codes "Content-Length: " ++ decimal (length (c ∷ cs))))
      (omega (arith, length-decimal (length (c ∷ cs)))))

regroup : (s a b c d : List ℕ) → (((s ++ a) ++ b) ++ c) ++ d ≡ s ++ (a ++ (b ++ (c ++ d)))
regroup s a b c d = simp append_assoc

regroup_all :
    (a b c d e p q r g : List ℕ)
    → (((((a ++ b) ++ c) ++ d) ++ e) ++ (p ++ (q ++ r))) ++ g
      ≡ a ++ (b ++ (c ++ (d ++ (e ++ (p ++ (q ++ (r ++ g)))))))
regroup_all a b c d e p q r g = simp append_assoc

take-nil {ℓ} : {A : Type ℓ} (n : ℕ) → take {A = A} n [] ≡ []
take-nil zero = refl
take-nil (suc n) = refl

module _ (size : ℕ) where
  abbrev Clipped : List ℕ → Option Writer → Type 0
  Clipped s m = Leaves size (take (size - 1) s) m

  append_body_data-Leaves :
      (o : Option (List ℕ)) (s : List ℕ) (w : Writer)
      → IsHolding size (take (size - 1) s) w
      → Clipped
          (s ++ text_of o)
          (if ltb 0 (length (text_of o)) then append_request_data size w o else some w)
  append_body_data-Leaves none s w h = rw (append-nil s) (w, refl, h)
  append_body_data-Leaves (some []) s w h = rw (append-nil s) (w, refl, h)
  append_body_data-Leaves (some (c ∷ cs)) s w h =
      rw (lt→ltb 0 (suc (length cs)) (omega arith)) (append_request_data-Leaves size s (c ∷ cs) w h)

  append_headers-Leaves :
      (r : Parts) (s : List ℕ) (w : Writer)
      → IsHolding size (take (size - 1) s) w
      → Clipped
          (s ++ (port_suffix r.port ++ (fixed_headers ++ header_lines r.extra_headers)))
          (append_headers size r w)
  unfolding append_headers
  append_headers-Leaves r s w h =
      rw (← port_piece r.port, ← header_piece r.extra_headers, ← regroup s _ fixed_headers _ _)
        (Leaves-bind _ _ _ (append_if-Leaves size s _ _ w h) λ w h.
          Leaves-bind _ _ _ (append_request_text-Leaves size _ fixed_headers w h) λ w h.
            Leaves-bind _ _ _ (append_if-Leaves size _ crlf _ w h)
              λ w h. append_if-Leaves size _ _ _ w h)

  append_body-Leaves :
      (r : Parts) (s : List ℕ) (w : Writer)
      → IsHolding size (take (size - 1) s) w
      → Clipped
          (s ++ (length_line (text_of r.body) ++ ((crlf ++ crlf) ++ text_of r.body)))
          (append_body size r w)
  unfolding append_body
  append_body-Leaves r s w h =
      rw
        (
          ← length_piece (text_of r.body),
          ← append_assoc s (if ltb 0 (length (text_of r.body)) then _ else _) _,
          ← append_assoc _ (crlf ++ crlf) (text_of r.body),
        )
        (Leaves-bind _ _ _ (append_if-Leaves size s _ _ w h) λ w h.
          Leaves-bind _ _ _ (append_request_text-Leaves size _ (crlf ++ crlf) w h)
            λ w h. append_body_data-Leaves r.body _ w h)

  write_request-Leaves :
      (r : Parts) (w : Writer)
      → IsHolding size [] w
      → Clipped (request_text r) (write_request size r w)
  unfolding write_request
  write_request-Leaves r w h =
      rw
        (← regroup_all (given_or r.method (codes "GET")) (codes " ") (given_or r.path (codes "/"))
          host_intro r.host _ fixed_headers _ _)
        (Leaves-bind _ _ _ (append_request_text-Leaves size [] _ w (rw (take-nil (size - 1)) h))
          λ w h. Leaves-bind _ _ _ (append_request_text-Leaves size _ (codes " ") w h) λ w h.
            Leaves-bind _ _ _ (append_request_text-Leaves size _ _ w h) λ w h.
              Leaves-bind _ _ _ (append_request_text-Leaves size _ host_intro w h) λ w h.
                Leaves-bind _ _ _ (append_request_text-Leaves size _ r.host w h) λ w h.
                  Leaves-bind _ _ _ (append_headers-Leaves r _ w h)
                    λ w h. append_body-Leaves r _ w h)

-- For an array of `size` cells, `size` not 0, the builder never writes out of it, and leaves the
-- request, cut to `size - 1` bytes, followed by a NUL within the array.
pub build_request-eq-request_text :
    (r : Parts) (request : List ℕ) (size : ℕ)
    → 0 < size
    → length request ≡ size
    → (rest : List ℕ) × (build_request r request size
        ≡ some (take (size - 1) (request_text r) ++ (0 ∷ rest)))
      × (length (take (size - 1) (request_text r)) + 1 + length rest ≡ size)
unfolding build_request
build_request-eq-request_text r [] size p e = absurd (omega arith)
build_request-eq-request_text r (x ∷ request) size p e =
    let (w, written, h) =
      write_request-Leaves size r (record { request = 0 ∷ request; used = 0 })
        (record { used_length = refl; tail = request; holds = refl; sized = omega arith }) in
    (
      h.tail,
      elim (Bool-cases (size == 0)) [
        | inl z ↦ absurd (omega (arith, (==_iff _ _).0 z))
        | inr z ↦ rw (z, store-append [] request x 0 0 refl, written) (ap some h.holds)
      ],
      h.sized,
    )
