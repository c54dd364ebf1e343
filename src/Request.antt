-- ===== src/Request.antt =====
-- The request builder of BearTLS/wm_https.c: `wm_https_append_request_text`,
-- `wm_https_append_request_data` and `wm_https_build_request`.
--
-- A C string is the list of its bytes before the NUL, a pointer that may be null is an `Option`,
-- and the request buffer is an array of cells in which a write out of range is a fault, `none`.
pub mod Append
pub mod Build
use bear_tls.Base.{
  ℕ, ◌+◌, ◌-◌, ◌==◌, Bool, true, false, not, ◌||◌, Option, none, some, List, [], ◌∷◌, ◌++◌, ltb,
  leb, if◌then◌else◌, ◌>>=◌, length, take, memcpy, store, codes, decimal, replicate,
}

-- The array `request` and the variable `used` that the helpers share.
pub record Writer : Type 0 where
  pub request : List ℕ
  pub used : ℕ

-- The common tail of the two helpers: clip to the room left, copy, and terminate.
unfoldable pub append_clipped : ℕ → Writer → List ℕ → Option Writer
append_clipped request_cap w text =
    let room = request_cap - w.used - 1 in
    let chunk_len = if ltb room (length text) then room else length text in
    memcpy w.request w.used (take chunk_len text) >>= λ request.
    store request (w.used + chunk_len) 0 >>= λ request'.
    some (record { request = request'; used = w.used + chunk_len })

unfoldable pub append_request_text : ℕ → Writer → Option (List ℕ) → Option Writer
append_request_text request_size w none = some w
append_request_text request_size w (some text) =
    if request_size == 0
    then some w
    else if leb (request_size - 1) w.used
    then some w
    else append_clipped request_size w text

-- `data` with `data_len` is the list of the bytes.
unfoldable pub append_request_data : ℕ → Writer → Option (List ℕ) → Option Writer
append_request_data request_size w none = some w
append_request_data request_size w (some bytes) =
    if request_size == 0
    then some w
    else if leb (request_size - 1) w.used
    then some w
    else append_clipped request_size w bytes

-- `_snprintf(buf, n, …)` followed by `buf[n - 1] = '\0'`: the text is cut to `n - 1` bytes.
abbrev pub snprintf : ℕ → List ℕ → List ℕ
snprintf n text = take (n - 1) text

-- `text != 0 && text[0] != '\0'`
abbrev pub is_given : Option (List ℕ) → Bool
is_given none = false
is_given (some []) = false
is_given (some (c ∷ cs)) = true

abbrev pub given_or : Option (List ℕ) → List ℕ → List ℕ
given_or none d = d
given_or (some []) d = d
given_or (some (c ∷ cs)) d = c ∷ cs

abbrev pub text_of : Option (List ℕ) → List ℕ
text_of none = []
text_of (some text) = text

abbrev pub crlf : List ℕ
crlf = 13 ∷ 10 ∷ []

unfoldable pub fixed_headers : List ℕ
fixed_headers =
    crlf
    ++ (codes "User-Agent: Mozilla/5.0 (Windows CE; ARM; HP iPAQ 212)"
        ++ (crlf ++ (codes "Accept: */*" ++ (crlf ++ codes "Connection: close"))))

unfoldable pub host_intro : List ℕ
host_intro = codes " HTTP/1.1" ++ (crlf ++ codes "Host: ")

abbrev pub include_port : ℕ → Bool
include_port port = not (port == 443 || port == 80)

-- A piece that the builder appends only under a test.
unfoldable pub append_if : Bool → ℕ → Writer → List ℕ → Option Writer
append_if true request_size w text = append_request_text request_size w (some text)
append_if false request_size w text = some w

-- What the builder is given, as `wm_https_build_request` names it; `port` is an `unsigned short`.
pub record Parts : Type 0 where
  pub host : List ℕ
  pub port : ℕ
  pub method : Option (List ℕ)
  pub path : Option (List ℕ)
  pub extra_headers : Option (List ℕ)
  pub body : Option (List ℕ)

unfoldable pub append_headers : ℕ → Parts → Writer → Option Writer
append_headers size r w =
    append_if (include_port r.port) size w (snprintf 16 (codes ":" ++ decimal r.port)) >>= λ w.
    append_request_text size w (some fixed_headers) >>= λ w.
    append_if (is_given r.extra_headers) size w crlf >>= λ w.
    append_if (is_given r.extra_headers) size w (text_of r.extra_headers)

unfoldable pub append_body : ℕ → Parts → Writer → Option Writer
append_body size r w =
    append_if (ltb 0 (length (text_of r.body))) size w
      (snprintf 32 (crlf ++ (codes "Content-Length: " ++ decimal (length (text_of r.body)))))
    >>= λ w. append_request_text size w (some (crlf ++ crlf)) >>= λ w.
        if ltb 0 (length (text_of r.body)) then append_request_data size w r.body else some w

-- The calls of the builder, in order.
unfoldable pub write_request : ℕ → Parts → Writer → Option Writer
write_request size r w =
    append_request_text size w (some (given_or r.method (codes "GET"))) >>= λ w.
    append_request_text size w (some (codes " ")) >>= λ w.
    append_request_text size w (some (given_or r.path (codes "/"))) >>= λ w.
    append_request_text size w (some host_intro) >>= λ w.
    append_request_text size w (some r.host) >>= λ w.
    append_headers size r w >>= λ w. append_body size r w

-- The array is given with whatever it holds; `request[0]` is cleared first.
unfoldable pub build_request : Parts → List ℕ → ℕ → Option (List ℕ)
build_request r request request_size =
    if request_size == 0
    then some request
    else store request 0 0 >>= λ cleared.
        write_request request_size r (record { request = cleared; used = 0 }) >>= λ w.
        some w.request
