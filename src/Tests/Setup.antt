-- ===== src/Tests/Setup.antt =====
-- The setup library of BearTLS_CAB/BearTLS_CAB.cpp and the example program of
-- BearTLS/main_example.c at concrete inputs.
use bear_tls.Base.{
  ℕ, zero, suc, ◌+◌, ◌-◌, ◌⊎◌, ◌≡◌, refl, false, true, List, [], ◌∷◌, ◌++◌, none, some, arith,
  length, take, drop, codes, replicate, length-append, length-drop, Nonzero,
}
use bear_tls.CertStore.Paths.{register_runtime}
use bear_tls.CertStore.Locate.{Located}
use bear_tls.Installer.{install_exit, install_exit_done}
use bear_tls.Installer.Registry.{
  registered, library_name, register_runtime-install_exit, install_exit-Refuses,
}
use bear_tls.Example.{append_status_line}
use bear_tls.Example.Buffer.{Leaves}
use bear_tls.Example.Report.{status_line, append_status_line-Leaves}
use bear_tls.Smoke.{Library, Call, all_found, smoke_test}
use bear_tls.Smoke.Lookup.{resolved, Calls, GivesUp, smoke_test_lem}
use bear_tls.Seeder.{Readings}

abbrev home : List ℕ
home = codes "\\Program Files\\BearTLS"

abbrev home_library : List ℕ
home_library = home ++ (b'\\' ∷ library_name)

-- A call that writes the name over the beginning of the array.
abbrev name_home : List ℕ → ℕ → ℕ × List ℕ
name_home cells n =
    (length home_library, home_library ++ (0 ∷ drop (length home_library + 1) cells))

name_home-Located : Located name_home home_library
name_home-Located cells l =
    let rest = drop (length home_library + 1) cells in
    (
      home_library ++ (0 ∷ rest),
      refl,
      (
        rest,
        refl,
        omega (
          arith,
          length-append home_library (0 ∷ rest),
          length-drop (length home_library + 1) cells,
          l,
        ),
      ),
    )

register_runtime-install_exit_example :
    (install_exit (some 3) (some (home ++ (0 ∷ []))) (replicate 260 1) (replicate 260 2)
      ≡ some (install_exit_done, false, registered home))
    × (register_runtime name_home true (replicate 260 3) (replicate 260 4) (replicate 260 5)
        ≡ some (true, registered home))
register_runtime-install_exit_example =
    register_runtime-install_exit home (ground arith) (omega arith) 3 [] (replicate 260 1)
      (replicate 260 2) name_home (replicate 260 3) (replicate 260 4) (replicate 260 5)
      (omega arith) name_home-Located refl refl refl refl refl (omega arith)

abbrev deep : List ℕ
deep = replicate 250 b'd'

replicate-Nonzero : (n : ℕ) → Nonzero (replicate n b'd')
replicate-Nonzero zero = tt
replicate-Nonzero (suc n) = (omega arith, replicate-Nonzero n)

deep-Nonzero : Nonzero deep
deep-Nonzero = replicate-Nonzero 250

install_exit-Refuses_example :
    install_exit (some 3) (some (deep ++ (0 ∷ []))) (replicate 260 1) (replicate 260 2)
    ≡ some (install_exit_done, true, [])
install_exit-Refuses_example =
    install_exit-Refuses deep deep-Nonzero (omega arith) (some 3) [] (replicate 260 1)
      (replicate 260 2) refl refl (omega arith)

append_status_line-Leaves_example :
    Leaves 40 (take 39 (codes "x: 1" ++ status_line (codes "a.org") (codes "HTTP/1.1 200 OK"))) (
      append_status_line
        (codes "x: 1" ++ (0 ∷ replicate 35 1))
        40
        (codes "a.org")
        (codes "HTTP/1.1 200 OK")
        (replicate 256 9))
append_status_line-Leaves_example =
    append_status_line-Leaves 40 (codes "x: 1") (codes "a.org") (codes "HTTP/1.1 200 OK")
      (replicate 256 9) (codes "x: 1" ++ (0 ∷ replicate 35 1)) (ground arith) (ground arith)
      (ground arith) refl (replicate 35 1, refl, refl)

abbrev readings : Readings
readings = record {
  system_time = replicate 16 9;
  low_date_time = 258;
  high_date_time = 1;
  tick_count = 7;
  process_id = 8;
  thread_id = 9;
}

-- A library whose functions are found by their ordinals only.
abbrev bare_library : Library
bare_library = record {
  by_name = λ name. (none, 127);
  by_ordinal = λ n. some (4096 + n);
  module_path = none;
}

abbrev small_answer : Call
small_answer = λ address host port path size.
    (address - 4096, record { ok = 1; tls_error = 0; wsa_error = 0; http_bytes = size - 1 })

smoke_test_lem_example :
    ((smoke_test small_answer (some bare_library) 0).freed ≡ true)
    × (((all_found (resolved bare_library) ≡ true)
          × Calls small_answer bare_library (smoke_test small_answer (some bare_library) 0))
        ⊎ ((all_found (resolved bare_library) ≡ false)
            × GivesUp bare_library (smoke_test small_answer (some bare_library) 0)))
smoke_test_lem_example = smoke_test_lem small_answer bare_library 0
