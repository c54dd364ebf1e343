-- ===== src/Connection/Requests.antt =====
-- A whole request of BearTLS/wm_https.c: `wm_https_request` builds the text of the request and
-- hands it to `wm_tls_exchange_internal`.
use bear_tls.Base.{
  ℕ, zero, suc, ◌-◌, ◌/◌, ◌<◌, ◌≡◌, refl, ◌∙◌, ◌==◌, ◌||◌, false, Option, none, some, List, [], ◌∷◌,
  ◌++◌, arith, ltb, leb, length, take, codes, c_string-append, Nonzero, Nonzero-append,
  Nonzero-take, Bool-cases, inl, inr, decimal, decimal_digits,
}
use bear_tls.Request.{Parts, given_or, text_of, crlf, fixed_headers, host_intro}
use bear_tls.Request.Build.{
  request_text, port_suffix, header_lines, length_line, build_request-eq-request_text,
}
use bear_tls.Connection.Platform.{Platform, World, HttpsResult}
use bear_tls.Connection.Exchange.{request_size, exchange_internal, https_request}

-- The texts of a request are C strings, so none has a NUL.
abbrev pub Texts : Parts → Type 0
Texts r =
    Nonzero r.host
    × Nonzero (text_of r.method)
    × Nonzero (text_of r.path)
    × Nonzero (text_of r.extra_headers)
    × Nonzero (text_of r.body)

decimal_digits-Nonzero : (f n : ℕ) → Nonzero (decimal_digits f n)
unfolding decimal_digits
decimal_digits-Nonzero zero n = tt
decimal_digits-Nonzero (suc f) n = elim (Bool-cases (ltb n 10)) [
  | inl e ↦ rw e (omega arith, tt)
  | inr e ↦ rw e (
      Nonzero-append (decimal_digits f (n / 10)) _ (decimal_digits-Nonzero f (n / 10))
        (omega arith, tt))
]

given_or-Nonzero :
    (o : Option (List ℕ)) (d : List ℕ) → Nonzero (text_of o) → Nonzero d → Nonzero (given_or o d)
given_or-Nonzero none d given nd = nd
given_or-Nonzero (some []) d given nd = nd
given_or-Nonzero (some (c ∷ cs)) d given nd = given

header_lines-Nonzero : (o : Option (List ℕ)) → Nonzero (text_of o) → Nonzero (header_lines o)
header_lines-Nonzero none n = tt
header_lines-Nonzero (some []) n = tt
header_lines-Nonzero (some (c ∷ cs)) n = (omega arith, (omega arith, n))

pub decimal-Nonzero : (n : ℕ) → Nonzero (decimal n)
unfolding decimal
decimal-Nonzero n = decimal_digits-Nonzero 10 n

length_line-Nonzero : (body : List ℕ) → Nonzero (length_line body)
length_line-Nonzero [] = tt
length_line-Nonzero (c ∷ cs) =
    Nonzero-append (crlf ++ codes "Content-Length: ") _ (ground arith)
      (decimal-Nonzero (length (c ∷ cs)))

port_suffix-Nonzero : (port : ℕ) → Nonzero (port_suffix port)
port_suffix-Nonzero port = elim (Bool-cases (port == 443 || port == 80)) [
  | inl e ↦ rw e tt
  | inr e ↦ rw e (Nonzero-append (codes ":") _ (omega arith, tt) (decimal-Nonzero port))
]

host_intro-Nonzero : Nonzero host_intro
unfolding host_intro
host_intro-Nonzero = ground arith

fixed_headers-Nonzero : Nonzero fixed_headers
unfolding fixed_headers
fixed_headers-Nonzero = ground arith

request_text-Nonzero : (r : Parts) → Texts r → Nonzero (request_text r)
request_text-Nonzero r (nh, nm, np, ne, nb) =
    Nonzero-append _ _ (given_or-Nonzero r.method (codes "GET") nm (ground arith)) (
      Nonzero-append (codes " ") _ (ground arith) (
        Nonzero-append _ _ (given_or-Nonzero r.path (codes "/") np (ground arith)) (
          Nonzero-append _ _ host_intro-Nonzero (
            Nonzero-append _ _ nh (
              Nonzero-append _ _ (port_suffix-Nonzero r.port) (
                Nonzero-append _ _ fixed_headers-Nonzero (
                  Nonzero-append _ _ (header_lines-Nonzero r.extra_headers ne) (
                    Nonzero-append _ _ (length_line-Nonzero (text_of r.body))
                      (Nonzero-append (crlf ++ crlf) _ (ground arith) nb)))))))))

not_refused :
    {A : Type 0} (o : Option (List ℕ)) (x : List ℕ) (a b : A)
    → o ≡ some x
    → elim o [ none ↦ a | some y ↦ b ] ≡ b
not_refused none x a b e = cc
not_refused (some y) x a b e = refl

-- For a path that is there, texts without a NUL, a buffer on the stack of 4096 cells, whatever it
-- held before, and an array for the answer of at least two cells: a request is an exchange that
-- sends the HTTP/1.1 request of its parts, cut to the 4095 bytes that the buffer has room for, and
-- asks for the host that it connects to.
pub https_request-exchange_internal :
    (p : Platform) (fuel : ℕ) (r : Parts) (stack response : List ℕ) (response_size : ℕ)
    (w : World p) (result : Option HttpsResult) (path : List ℕ)
    → r.path ≡ some path
    → Texts r
    → length stack ≡ request_size
    → 1 < response_size
    → https_request p fuel r stack response response_size w result
      ≡ exchange_internal p fuel
          (some r.host)
          r.port
          (some r.host)
          (some (take (request_size - 1) (request_text r)))
          response
          response_size
          w
          result
unfolding https_request
https_request-exchange_internal p fuel r stack response response_size w result path there texts l
      room =
    let (rest, e, size) = build_request-eq-request_text r stack request_size (omega arith) l in
    let big : leb response_size 1 ≡ false = ground arith in
    let text =
      c_string-append (take (request_size - 1) (request_text r)) rest
        (Nonzero-take (request_size - 1) (request_text r) (request_text-Nonzero r texts)) in
    not_refused r.path path _ _ there ∙ rw (big, e, text) refl
