-- ===== src/Smoke/Lookup.antt =====
-- Which functions the smoke test of BearTLS/dll_smoketest_main.c finds, and what it does with them.
use bear_tls.Base.{
  ℕ, ◌≡◌, refl, ap, ◌⊎◌, inl, inr, true, false, Option, none, some, List, [], ◌∷◌, ◌++◌, map,
  if◌then◌else◌, Bool-cases, Option-cases, ◌==◌, codes,
}
use bear_tls.Connection.Platform.{HttpsResult}
use bear_tls.Smoke.{
  Library, Notice, lookups_failed, call_worked, call_failed, functions, all_found, library_path,
  fall_back, Call, Ended, call_get, first_address, run_loaded, smoke_test,
}

-- A function by its name, or else by its ordinal.
abbrev pub or_else : Option ℕ → Option ℕ → Option ℕ
or_else none other = other
or_else (some address) other = some address

abbrev pub address_of : Library → List ℕ × ℕ → Option ℕ
address_of l f = or_else (l.by_name f.0).0 (l.by_ordinal f.1)

-- Each lookup by itself is what the two rounds come to.
fall_back_lem :
    (l : Library) (fs : List (List ℕ × ℕ))
    → fall_back l fs (map (λ a. a.0) (map (λ f. l.by_name f.0) fs)) ≡ map (address_of l) fs
unfolding fall_back
fall_back_lem l [] = refl
fall_back_lem l (f ∷ fs) = elim (Option-cases (l.by_name f.0).0) [
  | inl missing ↦ rw missing (ap (λ t. l.by_ordinal f.1 ∷ t) (fall_back_lem l fs))
  | inr (address, there) ↦ rw there (ap (λ t. some address ∷ t) (fall_back_lem l fs))
]

-- Where every name is found, the second round changes nothing.
all_found-named :
    (l : Library) (fs : List (List ℕ × ℕ))
    → all_found (map (λ a. a.0) (map (λ f. l.by_name f.0) fs)) ≡ true
    → map (λ a. a.0) (map (λ f. l.by_name f.0) fs) ≡ map (address_of l) fs
unfolding all_found
all_found-named l [] e = refl
all_found-named l (f ∷ fs) e = elim (Option-cases (l.by_name f.0).0) [
  | inl missing ↦ cc (rw (missing, all_found) at e)
  | inr (address, there) ↦
      rw there (ap (λ t. some address ∷ t) (all_found-named l fs (rw (there, all_found) at e)))
]

abbrev pub resolved : Library → List (Option ℕ)
resolved l = map (address_of l) functions

abbrev pub get_function : List ℕ × ℕ
get_function = (codes "wm_https_get", 1)

-- What is told of a call.
abbrev pub told : ℕ × HttpsResult → Notice
told (ok, res) =
    if ok == 0
    then call_failed res.tls_error res.wsa_error res.http_bytes
    else call_worked res.http_bytes

-- A run that made its call.
abbrev pub Calls : Call → Library → Ended → Type 0
Calls call l r =
    (address : ℕ) × (address_of l get_function ≡ some address)
    × (r.code ≡ 0)
    × (before : List Notice) × (r.messages
        ≡ before ++ (told (call address (codes "www.wikipedia.org") 443 (codes "/") 1024) ∷ []))

-- A run that gave up, and tells which functions it found.
abbrev pub GivesUp : Library → Ended → Type 0
GivesUp l r =
    (r.code ≡ 2)
    × (errors : List ℕ) × (r.messages ≡ lookups_failed (library_path l) (resolved l) errors ∷ [])

first_resolved :
    (l : Library)
    → all_found (resolved l) ≡ true
    → (address : ℕ) × (address_of l get_function ≡ some address)
unfolding all_found functions
first_resolved l e = elim (Option-cases (address_of l get_function)) [
  | inl missing ↦ cc (rw (missing, all_found) at e)
  | inr there ↦ there
]

call_get-Calls :
    (call : Call) (l : Library) (found : List (Option ℕ)) (before : List Notice)
    → found ≡ resolved l
    → all_found (resolved l) ≡ true
    → Calls call l (call_get call (first_address found) before)
      × ((call_get call (first_address found) before).freed ≡ true)
unfolding call_get functions
call_get-Calls call l found before e all =
    let (address, there) = first_resolved l all in
    let same : first_address found ≡ some address = rw e there in
    rw (same, call_get) ((address, there, refl, before, refl), refl)

-- A library that is loaded is freed again. If each of the seven functions is found by its name or
-- else by its ordinal, the program returns 0, and its last message tells what a call of
-- `wm_https_get`, at the address that was found for it, came to; if one is found by neither, the
-- program returns 2 with one message, without a call, and the message has the addresses that were
-- found.
pub smoke_test_lem :
    (call : Call) (l : Library) (error : ℕ)
    → ((smoke_test call (some l) error).freed ≡ true)
      × (((all_found (resolved l) ≡ true) × Calls call l (smoke_test call (some l) error))
          ⊎ ((all_found (resolved l) ≡ false) × GivesUp l (smoke_test call (some l) error)))
unfolding smoke_test run_loaded
smoke_test_lem call l error =
    let named = map (λ a. a.0) (map (λ f. l.by_name f.0) functions) in
    let found = fall_back l functions named in
    let errors = map (λ a. a.1) (map (λ f. l.by_name f.0) functions) in
    let e = fall_back_lem l functions in
    elim (Bool-cases (all_found named)) [
      | inl by_name ↦
          let same = all_found-named l functions by_name in
          let all : all_found (resolved l) ≡ true = rw (← same) by_name in
          let (called, freed) = call_get-Calls call l named [] same all in
          rw (smoke_test, run_loaded, by_name) (freed, inl (all, called))
      | inr not_named ↦ elim (Bool-cases (all_found found)) [
        | inl by_ordinal ↦
            let all : all_found (resolved l) ≡ true = rw (← e) by_ordinal in
            let (called, freed) = call_get-Calls call l found _ e all in
            rw (smoke_test, run_loaded, not_named, by_ordinal) (freed, inl (all, called))
        | inr missing ↦
            let some_missing : all_found (resolved l) ≡ false = rw (← e) missing in
            rw (smoke_test, run_loaded, not_named, missing)
              (
                refl,
                inr (
                  some_missing,
                  (refl, errors, ap (λ t. lookups_failed (library_path l) t errors ∷ []) e),
                ),
              )
      ]
    ]
