-- ===== src/Smoke.antt =====
-- The smoke test of the library, `WinMain` of BearTLS/dll_smoketest_main.c. The messages are
-- collected by what they say; their wording is left out.
use bear_tls.Base.{
  ℕ, ◌==◌, ◌&&◌, Bool, true, false, not, Option, none, some, List, [], ◌∷◌, ◌++◌, map,
  if◌then◌else◌, ltb, codes,
}
use bear_tls.Connection.Platform.{HttpsResult}
pub mod Lookup

-- What the test asks of the system for the loaded library. A lookup by name gives the address, if
-- any, and the error number that is left. `module_path` is the name of the library's file in the
-- ANSI code page, or `none` where `GetModuleFileName` fails.
pub record Library : Type 0 where
  pub by_name : List ℕ → Option ℕ × ℕ
  pub by_ordinal : ℕ → Option ℕ
  pub module_path : Option (List ℕ)

pub data Notice : Type 0 where
  load_failed : ℕ → Notice
  ordinals_worked : List ℕ → List ℕ → Notice
  lookups_failed : List ℕ → List (Option ℕ) → List ℕ → Notice
  call_worked : ℕ → Notice
  call_failed : ℕ → ℕ → ℕ → Notice

-- The functions that are looked up, each with its ordinal.
unfoldable pub functions : List (List ℕ × ℕ)
functions =
    (codes "wm_https_get", 1)
    ∷ (codes "wm_https_request", 2)
    ∷ (codes "wm_tls_exchange", 3)
    ∷ (codes "wm_tls_open", 4)
    ∷ (codes "wm_tls_write", 5)
    ∷ (codes "wm_tls_read", 6)
    ∷ (codes "wm_tls_close", 7)
    ∷ []

unfoldable pub all_found : List (Option ℕ) → Bool
all_found [] = true
all_found (none ∷ rest) = false
all_found (some address ∷ rest) = all_found rest

-- `apath`
unfoldable pub library_path : Library → List ℕ
library_path l = elim l.module_path [ none ↦ codes "(unknown)" | some path ↦ path ]

-- The second lookup, of those that the first did not find.
unfoldable pub fall_back : Library → List (List ℕ × ℕ) → List (Option ℕ) → List (Option ℕ)
fall_back l [] found = []
fall_back l (f ∷ fs) [] = []
fall_back l (f ∷ fs) (none ∷ found) = l.by_ordinal f.1 ∷ fall_back l fs found
fall_back l (f ∷ fs) (some address ∷ found) = some address ∷ fall_back l fs found

-- `p_get` is called through its address with `response_size` 1024; the return value, and what `res`
-- holds.
abbrev pub Call : Type 0
Call = ℕ → List ℕ → ℕ → List ℕ → ℕ → ℕ × HttpsResult

-- The return value of the program, its messages, and whether the library was freed.
pub record Ended : Type 0 where
  pub code : ℕ
  pub messages : List Notice
  pub freed : Bool

unfoldable pub call_get : Call → Option ℕ → List Notice → Ended
call_get call none messages = record { code = 0; messages = messages; freed = true }
call_get call (some address) messages =
    let (ok, res) = call address (codes "www.wikipedia.org") 443 (codes "/") 1024 in
    record {
      code = 0;
      messages =
          messages
          ++ ((if ok == 0
                then call_failed res.tls_error res.wsa_error res.http_bytes
                else call_worked res.http_bytes)
              ∷ []);
      freed = true;
    }

-- The first of the addresses, which is that of `wm_https_get`.
abbrev pub first_address : List (Option ℕ) → Option ℕ
first_address [] = none
first_address (address ∷ rest) = address

-- From the library that is loaded on.
unfoldable pub run_loaded : Call → Library → Ended
run_loaded call l =
    let answers = map (λ f. l.by_name f.0) functions in
    let named = map (λ a. a.0) answers in
    let errors = map (λ a. a.1) answers in
    let found = fall_back l functions named in
    if all_found named
    then call_get call (first_address named) []
    else if all_found found
    then call_get call (first_address found) (ordinals_worked (library_path l) errors ∷ [])
    else record {
      code = 2;
      messages = lookups_failed (library_path l) found errors ∷ [];
      freed = true;
    }

-- `LoadLibrary` gives the library, or nothing and an error number.
unfoldable pub smoke_test : Call → Option Library → ℕ → Ended
smoke_test call none error = record { code = 1; messages = load_failed error ∷ []; freed = false }
smoke_test call (some l) error = run_loaded call l
