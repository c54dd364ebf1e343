-- ===== src/Example/Program.antt =====
-- The example program as a whole, `WinMain` of BearTLS/main_example.c.
use bear_tls.Base.{
  if◌then◌else◌, ◌==◌, ℕ, ◌+◌, ◌-◌, ◌*◌, ◌==◌, ◌<◌, ◌≡◌, refl, sym, ap, ◌∙◌, none, some, List, [],
  ◌∷◌, ◌++◌, length, All, store-append, length-take, take, store, codes, c_string, c_string-append,
  arith, Nonzero, Nonzero-append, Nonzero-take, Bool-cases, inl, inr, append_assoc, append-nil,
}
use native.Mathlib.Nat.{mul-add}
use bear_tls.Request.{Parts}
use bear_tls.Request.Build.{request_text}
use bear_tls.Connection.Platform.{Platform, World, HttpsResult}
use bear_tls.Connection.Exchange.{returned, Exchanged, https_get, request_size}
use bear_tls.Connection.Streams.{Streams}
use bear_tls.Connection.Progress.{Progress}
use bear_tls.Connection.Returns.{exchange_internal_returns}
use bear_tls.Connection.Requests.{decimal-Nonzero, https_request-exchange_internal}
use bear_tls.Connection.Response.{HoldsText}
use bear_tls.Example.{
  line_size, failure_line, sites, response_size, report_size, Shown, report_site, result_or, visit,
  visit_all, win_main,
}
use bear_tls.Example.Buffer.{Leaves, append_text-Leaves, print_line-Leaves}
use bear_tls.Example.Report.{status_line, status_line-Nonzero, append_status_line-Leaves}

-- The line of the report for what a call for a host returned.
abbrev pub line_for : List ℕ → ℕ → List ℕ → HttpsResult → List ℕ
line_for host ok response res =
    if ok == 0
    then take (line_size - 1) (failure_line host res)
    else status_line host (c_string response)

module _ (p : Platform) (fuel : ℕ) (stack : List ℕ) where
  -- A report with one line for each host, in their order: each tells what the call for its host
  -- returned, in the world that the call before it left.
  abbrev pub IsReport : List (List ℕ) → List ℕ → World p → HttpsResult → List ℕ → Type 0
  IsReport [] response w res text = text ≡ []
  IsReport (host ∷ hosts) response w res text =
      (cleared : List ℕ) × (store response 0 0 ≡ some cleared)
      × (x : Exchanged p) × (https_get p fuel host 443 (codes "/") stack cleared response_size w
            (some res)
          ≡ returned x)
      × (rest : List ℕ) × (text ≡ line_for host x.ok x.response (result_or p res x.result) ++ rest)
      × IsReport hosts x.response x.world (result_or p res x.result) rest

c_string-Nonzero : (cells : List ℕ) → Nonzero (c_string cells)
unfolding c_string
c_string-Nonzero [] = tt
c_string-Nonzero (c ∷ cells) = elim (Bool-cases (c == 0)) [
  | inl stop ↦ rw (stop, c_string) tt
  | inr other ↦ rw (other, c_string) (ground arith, c_string-Nonzero cells)
]

module _ (p : Platform) (g : Progress p) (v : Streams p) where
  -- Fuel for one exchange of the program.
  abbrev pub enough : ℕ
  enough = g.start + g.cost * request_size + request_size + response_size + g.farewell + 2

  https_get_returns :
      (fuel : ℕ) (host stack response : List ℕ) (w : World p) (res : HttpsResult)
      → Nonzero host
      → enough < fuel
      → length stack ≡ request_size
      → length response ≡ response_size
      → (x : Exchanged p) × (https_get p fuel host 443
            (codes "/")
            stack
            response
            response_size
            w
            (some res)
          ≡ returned x)
        × (length x.response ≡ response_size)
  unfolding https_get
  https_get_returns fuel host stack response w res nh more ls lr =
      let r : Parts = record {
        host = host;
        port = 443;
        method = some (codes "GET");
        path = some (codes "/");
        extra_headers = none;
        body = none;
      } in
      let text = take (request_size - 1) (request_text r) in
      let e =
        https_request-exchange_internal p fuel r stack response response_size w (some res)
          (codes "/") refl (nh, ground arith, ground arith, tt, tt) ls (omega arith) in
      let lt = length-take (request_size - 1) (request_text r) in
      let spare : ℕ = request_size - length text in
      let whole : length text + spare ≡ request_size = omega (arith, lt) in
      let shares : g.cost * request_size ≡ g.cost * length text + g.cost * spare =
        ap (λ m. g.cost * m) (sym whole) ∙ mul-add g.cost (length text) spare in
      let (x, f, l, how) =
        exchange_internal_returns p g v fuel (some host) 443 (some host) text response response_size
          w (some res) lr (omega (arith, shares, whole, more)) in
      (x, e ∙ f, l)

  failure_line-Nonzero :
      (host : List ℕ) (res : HttpsResult) → Nonzero host → Nonzero (failure_line host res)
  unfolding failure_line
  failure_line-Nonzero host res nh = Nonzero-append host _ nh (
      Nonzero-append (codes ": FAIL tls=") _ (ground arith) (
        Nonzero-append _ _ (decimal-Nonzero res.tls_error) (
          Nonzero-append (codes " wsa=") _ (ground arith) (
            Nonzero-append _ _ (decimal-Nonzero res.wsa_error) (
              Nonzero-append (codes " bytes=") _ (ground arith)
                (Nonzero-append _ _ (decimal-Nonzero res.http_bytes) (ground arith)))))))

  -- The line for a site goes behind the report.
  report_site-Leaves :
      (host : List ℕ) (ok : ℕ) (response : List ℕ) (res : HttpsResult) (text report line : List ℕ)
      → Nonzero host
      → Nonzero text
      → length line ≡ line_size
      → HoldsText report_size (take (report_size - 1) text) report
      → Nonzero (line_for host ok response res)
        × Leaves report_size
            (take (report_size - 1) (text ++ line_for host ok response res))
            (report_site p host ok response res report line)
  unfolding report_site
  report_site-Leaves host ok response res text report line nh nt ll h =
      elim (Bool-cases (ok == 0)) [
        | inr fine ↦
            let shown = c_string response in
            let ns = c_string-Nonzero response in
            rw (fine, report_site)
              (
                status_line-Nonzero host shown nh ns,
                append_status_line-Leaves report_size text host shown line report nt nh ns ll h,
              )
        | inl failed ↦
            let told = take (line_size - 1) (failure_line host res) in
            let n = Nonzero-take (line_size - 1) _ (failure_line-Nonzero host res nh) in
            let (printed, e, (rest, c, lp)) = print_line-Leaves line (failure_line host res) ll in
            let held : c_string printed ≡ told = rw c (c_string-append told rest n) in
            rw (failed, report_site, e, held)
              (n, append_text-Leaves report_size text told report nt h)
      ]

  first_cell :
      (cells : List ℕ) (n : ℕ)
      → 0 < n
      → length cells ≡ n
      → (cleared : List ℕ) × (store cells 0 0 ≡ some cleared) × HoldsText n [] cleared
  first_cell [] n pos l = absurd (omega arith)
  first_cell (c ∷ cells) n pos l = (0 ∷ cells, store-append [] cells c 0 0 refl, (cells, refl, l))

  module _ (fuel : ℕ) (more : enough < fuel) (stack line : List ℕ)
      (ls : length stack ≡ request_size) (ll : length line ≡ line_size) where
    -- The passes for some sites come to an end, and add their lines.
    abbrev Visits : List (List ℕ) → List ℕ → Shown p → Type 0
    Visits hosts text s =
        (s' : Shown p) × (visit_all p fuel stack line hosts s ≡ returned s')
        × (added : List ℕ) × IsReport p fuel stack hosts s.response s.world s.res added
        × HoldsText report_size (take (report_size - 1) (text ++ added)) s'.report

    visit_all-Visits :
        (hosts : List (List ℕ)) (text : List ℕ) (s : Shown p)
        → All Nonzero hosts
        → Nonzero text
        → length s.response ≡ response_size
        → HoldsText report_size (take (report_size - 1) text) s.report
        → Visits hosts text s
    unfolding visit_all visit
    visit_all-Visits [] text s nhs nt lr h = (s, refl, [], refl, rw (append-nil text) h)
    visit_all-Visits (host ∷ hosts) text s (nh, nhs) nt lr h =
        let (cleared, c, (rest, e, lc)) = first_cell s.response response_size (omega arith) lr in
        let (x, f, lx) = https_get_returns fuel host stack cleared s.world s.res nh more ls lc in
        let res = result_or p s.res x.result in
        let told = line_for host x.ok x.response res in
        let (nl, (report, g', h')) =
          report_site-Leaves host x.ok x.response res text s.report line nh nt ll h in
        let s1 : Shown p = record {
          report = report;
          response = x.response;
          world = x.world;
          res = res;
        } in
        let (s2, e2, added, is_report, h2) =
          visit_all-Visits hosts (text ++ told) s1 nhs (Nonzero-append text told nt nl) lx h' in
        (
          s2,
          rw (visit_all, visit, c, f, g') e2,
          told ++ added,
          (cleared, c, x, f, added, refl, is_report),
          rw (← append_assoc text told added) h2,
        )

    sites-Nonzero : All Nonzero sites
    unfolding sites
    sites-Nonzero = ground arith

    -- For an engine with its streams and with its work bounded, fuel above what one exchange needs
    -- is enough for the whole program to return, whatever the sites answer and without a fault. Its
    -- report is a text with one line for each of the four sites in their order, cut to the 2047
    -- bytes that its array has room for, and a NUL. Each line tells what the call for its site
    -- returned, in the world that the call before left: the first line of the response, or the
    -- numbers of a failure. The arrays have the sizes of the source, and hold whatever they hold.
    pub win_main_returns :
        (s : Shown p)
        → length s.response ≡ response_size
        → length s.report ≡ report_size
        → (s' : Shown p) × (win_main p fuel stack line s ≡ returned s')
          × (text : List ℕ) × IsReport p fuel stack sites s.response s.world s.res text
          × HoldsText report_size (take (report_size - 1) text) s'.report
    unfolding win_main
    win_main_returns s lr lp =
        let (report, c, h) = first_cell s.report report_size (omega arith) lp in
        let (s2, e, added, is_report, h2) =
          visit_all-Visits sites [] (record s { report = report }) sites-Nonzero tt lr h in
        (s2, rw (win_main, c) e, added, is_report, h2)
