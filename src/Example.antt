-- ===== src/Example.antt =====
-- The example program, BearTLS/main_example.c: `append_text`, `append_status_line` and the loop of
-- `WinMain`. An array is the list of its cells, and a write that leaves it is a fault, `none`.
use bear_tls.Base.{
  ℕ, zero, suc, ◌+◌, ◌-◌, ◌==◌, ◌>>=◌, Bool, true, false, Option, none, some, List, [], ◌∷◌, ◌++◌,
  if◌then◌else◌, ltb, leb, length, take, min, memcpy, store, codes, c_string, decimal,
}
use bear_tls.Request.{crlf}
use bear_tls.CertStore.Pem.{find_text}
use bear_tls.Connection.Platform.{Platform, World, HttpsResult}
use bear_tls.Connection.Exchange.{Outcome, fault, out_of_fuel, returned, https_get}
pub mod Line
pub mod Buffer
pub mod Report
pub mod Program

-- `dst` and `src` are not null; `src` is its text, and a size below 0 counts as 0.
unfoldable pub append_text : List ℕ → ℕ → List ℕ → Option (List ℕ)
append_text dst dst_size src =
    let used = length (c_string dst) in
    let left = dst_size - 1 - used in
    let want = if ltb left (length src) then left else length src in
    if dst_size == 0
    then some dst
    else if leb (dst_size - 1) used
    then some dst
    else memcpy dst used (take want src) >>= λ copied. store copied (used + want) 0

-- `sizeof(line)`
abbrev pub line_size : ℕ
line_size = 256

-- `_snprintf(line, sizeof(line), …)` for what it formats: the text and its NUL, as far as they fit,
-- and the write of the last cell.
unfoldable pub print_line : List ℕ → List ℕ → Option (List ℕ)
print_line line text =
    memcpy line 0 (take line_size (text ++ (0 ∷ []))) >>= λ printed. store printed (line_size - 1) 0

abbrev pub end_or : ℕ → Option ℕ → ℕ
end_or last none = last
end_or last (some i) = i

-- `line_end - response` for the text of a response.
unfoldable pub line_end : List ℕ → ℕ
line_end text = end_or (length text) (find_text text crlf)

-- `line_len` after its bounds.
unfoldable pub line_length : List ℕ → ℕ
line_length text = if ltb 120 (line_end text) then 120 else line_end text

-- `response` is the text in the array; `line` holds what it holds.
unfoldable pub append_status_line : List ℕ → ℕ → List ℕ → List ℕ → List ℕ → Option (List ℕ)
append_status_line report report_size host response line =
    let line_len = line_length response in
    print_line line (host ++ codes ": ") >>= λ printed.
    append_text report report_size (c_string printed) >>= λ report.
    (if ltb 0 line_len
      then (memcpy printed 0 (take line_len response) >>= λ copied.
          store copied line_len 0 >>= λ ended. append_text report report_size (c_string ended))
      else append_text report report_size (codes "(no response line)"))
    >>= λ report. append_text report report_size crlf

-- What `WinMain` formats for a call that failed; the numbers of the result are not negative.
unfoldable pub failure_line : List ℕ → HttpsResult → List ℕ
failure_line host res =
    host
    ++ (codes ": FAIL tls="
        ++ (decimal res.tls_error
            ++ (codes " wsa="
                ++ (decimal res.wsa_error
                    ++ (codes " bytes=" ++ (decimal res.http_bytes ++ crlf))))))

unfoldable pub sites : List (List ℕ)
sites =
    codes "www.wikipedia.org"
    ∷ codes "www.google.com"
    ∷ codes "github.com"
    ∷ codes "microsoft.com"
    ∷ []

-- The size of `response` and of `report`.
abbrev pub response_size : ℕ
response_size = 1024

abbrev pub report_size : ℕ
report_size = 2048

module _ (p : Platform) where
  -- The report, the array for a response, and the system.
  pub record Shown : Type 0 where
    pub report : List ℕ
    pub response : List ℕ
    pub world : World p
    pub res : HttpsResult

  -- The line for one site after the call; the two arrays on the stack hold what they hold.
  unfoldable pub report_site : List ℕ → ℕ → List ℕ → HttpsResult → List ℕ → List ℕ → Option (List ℕ)
  report_site host ok response res report line =
      if ok == 0
      then (print_line line (failure_line host res) >>= λ printed.
          append_text report report_size (c_string printed))
      else append_status_line report report_size host (c_string response) line

  abbrev pub result_or : HttpsResult → Option HttpsResult → HttpsResult
  result_or res none = res
  result_or res (some r) = r

  -- The pass for one site. `stack` and `line` are what the local arrays hold.
  unfoldable pub visit : ℕ → List ℕ → List ℕ → List ℕ → Shown → Outcome Shown
  visit fuel stack line host s = elim (store s.response 0 0) [
    | none ↦ fault
    | some cleared ↦
        elim (https_get p fuel host 443 (codes "/") stack cleared response_size s.world
          (some s.res)) [
            | fault ↦ fault
            | out_of_fuel ↦ out_of_fuel
            | returned x ↦
                elim (report_site host x.ok x.response (result_or s.res x.result) s.report line) [
                  | none ↦ fault
                  | some report ↦ returned (record {
                    report = report;
                    response = x.response;
                    world = x.world;
                    res = result_or s.res x.result;
                  })
                ]
          ]
  ]

  unfoldable pub visit_all : ℕ → List ℕ → List ℕ → List (List ℕ) → Shown → Outcome Shown
  visit_all fuel stack line [] s = returned s
  visit_all fuel stack line (host ∷ hosts) s = elim (visit fuel stack line host s) [
    | fault ↦ fault
    | out_of_fuel ↦ out_of_fuel
    | returned s' ↦ visit_all fuel stack line hosts s'
  ]

  -- The report that the program shows at its end.
  unfoldable pub win_main : ℕ → List ℕ → List ℕ → Shown → Outcome Shown
  win_main fuel stack line s = elim (store s.report 0 0) [
    | none ↦ fault
    | some report ↦ visit_all fuel stack line sites (record s { report = report })
  ]
