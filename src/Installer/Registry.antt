-- ===== src/Installer/Registry.antt =====
-- The setup library and the library itself put the same values under `Software\BearTLS`:
-- `Install_Exit` of BearTLS_CAB/BearTLS_CAB.cpp and `wm_bear_tls_register_runtime` of
-- BearTLS/wm_cert_store.c.
use bear_tls.Base.{
  ℕ, ◌+◌, ◌≤◌, ◌<◌, ◌≡◌, refl, ◌==◌, true, false, Option, some, List, [], ◌∷◌, ◌++◌, arith,
  Bool-cases, inl, inr, leb, length, codes, Nonzero, Nonzero-append, c_string-append, c_string,
  length-append, get_elem?,
}
use bear_tls.CertStore.Paths.{max_path, register_runtime}
use bear_tls.CertStore.Locate.{
  Plain, Cells, Located, roots_suffix, get_dll_path-Gives, get_install_dir-Gives,
  get_roots_path-Gives,
}
use bear_tls.Installer.{
  install_exit_done, Values, set_reg_string, set_values, write_registry, install_exit,
}
use bear_tls.Installer.Copy.{make_path-Gives, make_path-Refuses}

abbrev pub library_name : List ℕ
library_name = codes "wm_https.dll"

-- The values that tell where BearTLS is installed.
abbrev pub registered : List ℕ → Values
registered dir =
    (codes "InstallDir", dir ++ (0 ∷ []))
    ∷ (codes "DllPath", (dir ++ (b'\\' ∷ library_name)) ++ (0 ∷ []))
    ∷ (codes "RootsPath", (dir ++ roots_suffix) ++ (0 ∷ []))
    ∷ (codes "Version", codes "1.0.0" ++ (0 ∷ []))
    ∷ []

library_name-Nonzero : Nonzero (b'\\' ∷ library_name)
library_name-Nonzero = ground arith

library_name-Plain : Plain library_name
library_name-Plain = ground arith

roots_suffix-Nonzero : Nonzero roots_suffix
roots_suffix-Nonzero = ground arith

Cells-c_string : (text cells : List ℕ) → Nonzero text → Cells text cells → c_string cells ≡ text
Cells-c_string text cells n (rest, c, l) = rw c (c_string-append text rest n)

module _ (dir : List ℕ) (n : Nonzero dir) (some_dir : 0 < length dir) where
  first_cell :
      (rest : List ℕ) → (c : ℕ) × (get_elem? (dir ++ (0 ∷ rest)) 0 ≡ some c) × ((c == 0) ≡ false)
  first_cell rest =
      elim dir
          as (λ d.
            Nonzero d
            → 0 < length d
            → (c : ℕ) × (get_elem? (d ++ (0 ∷ rest)) 0 ≡ some c) × ((c == 0) ≡ false)) [
              | [] ↦ λ n p. absurd (omega arith)
              | c ∷ cs ↦ λ (pos, n) p. (c, refl, ground arith)
            ]
        n some_dir

  -- `Install_Exit` for a directory that leaves room for the path of the roots.
  install_exit_lem :
      (key : ℕ) (rest dll_path roots_path : List ℕ)
      → 0 < key
      → length dll_path ≡ max_path
      → length roots_path ≡ max_path
      → length dir + length roots_suffix + 1 ≤ max_path
      → install_exit (some key) (some (dir ++ (0 ∷ rest))) dll_path roots_path
        ≡ some (install_exit_done, false, registered dir)
  unfolding install_exit write_registry set_values set_reg_string c_string
  install_exit_lem key rest dll_path roots_path pos ld lr room =
      let (c, e, other) = first_cell rest in
      let (dll, f, hd) =
        make_path-Gives dll_path dir rest (b'\\' ∷ library_name) ld n library_name-Nonzero
          (omega arith) in
      let (roots, g, hr) =
        make_path-Gives roots_path dir rest roots_suffix lr n roots_suffix-Nonzero room in
      let sd = Cells-c_string _ dll (Nonzero-append dir _ n library_name-Nonzero) hd in
      let sr = Cells-c_string _ roots (Nonzero-append dir _ n roots_suffix-Nonzero) hr in
      let si = c_string-append dir rest n in
      let handle : (key == 0) ≡ false = ground arith in
      rw (install_exit, write_registry, e, other, f, g, handle, sd, sr, si) refl

  -- The loader's registration for a library of that name in the directory.
  register_runtime_lem :
      (get_module_file_name : List ℕ → ℕ → ℕ × List ℕ) (stack1 stack2 stack3 : List ℕ)
      → Located get_module_file_name (dir ++ (b'\\' ∷ library_name))
      → length stack1 ≡ max_path
      → length stack2 ≡ max_path
      → length stack3 ≡ max_path
      → length dir + length roots_suffix + 1 ≤ max_path
      → register_runtime get_module_file_name true stack1 stack2 stack3
        ≡ some (true, registered dir)
  unfolding register_runtime
  register_runtime_lem gmfn stack1 stack2 stack3 found l1 l2 l3 room =
      let fits : length (dir ++ (b'\\' ∷ library_name)) < max_path =
        omega (arith, length-append dir (b'\\' ∷ library_name)) in
      let (dll, e, hd) =
        get_dll_path-Gives gmfn dir library_name found n library_name-Plain fits stack1 l1 in
      let (home, f, hh) =
        get_install_dir-Gives gmfn dir library_name found n library_name-Plain fits stack2 l2 in
      let (roots, g, hr) =
        get_roots_path-Gives gmfn dir library_name found n library_name-Plain fits stack3 l3 room in
      let sd = Cells-c_string _ dll (Nonzero-append dir _ n library_name-Nonzero) hd in
      let sr = Cells-c_string _ roots (Nonzero-append dir _ n roots_suffix-Nonzero) hr in
      let sh = Cells-c_string dir home n hh in rw (register_runtime, e, f, g, sd, sr, sh) refl

  -- For a directory that is not empty, has no NUL and leaves room for the path of the roots, and
  -- where the registry key is created: the setup library, and the runtime in a `wm_https.dll`
  -- whose name `GetModuleFileName` gives as standing in that directory, set the same four values:
  -- the directory, the paths of the library and of the roots in it, and the version, each with its
  -- NUL. Both report success, and the setup shows no warning. The arrays for the paths have 260
  -- cells, and hold whatever they hold.
  pub register_runtime-install_exit :
      (key : ℕ) (rest dll_path roots_path : List ℕ)
      → (get_module_file_name : List ℕ → ℕ → ℕ × List ℕ) (stack1 stack2 stack3 : List ℕ) → 0 < key
      → Located get_module_file_name (dir ++ (b'\\' ∷ library_name))
      → length dll_path ≡ max_path
      → length roots_path ≡ max_path
      → length stack1 ≡ max_path
      → length stack2 ≡ max_path
      → length stack3 ≡ max_path
      → length dir + length roots_suffix + 1 ≤ max_path
      → (install_exit (some key) (some (dir ++ (0 ∷ rest))) dll_path roots_path
          ≡ some (install_exit_done, false, registered dir))
        × (register_runtime get_module_file_name true stack1 stack2 stack3
            ≡ some (true, registered dir))
  register_runtime-install_exit key rest dll_path roots_path gmfn stack1 stack2 stack3 pos found ld
        lr l1 l2 l3 room =
      (
        install_exit_lem key rest dll_path roots_path pos ld lr room,
        register_runtime_lem gmfn stack1 stack2 stack3 found l1 l2 l3 room,
      )

  -- A directory that is not empty, has no NUL and leaves no room for the path of the roots is
  -- refused whole, without a write outside of the arrays of 260 cells: the setup sets no value and
  -- shows its warning, whatever the registry would say.
  pub install_exit-Refuses :
      (key : Option ℕ) (rest dll_path roots_path : List ℕ)
      → length dll_path ≡ max_path
      → length roots_path ≡ max_path
      → max_path < length dir + length roots_suffix + 1
      → install_exit key (some (dir ++ (0 ∷ rest))) dll_path roots_path
        ≡ some (install_exit_done, true, [])
  unfolding install_exit write_registry
  install_exit-Refuses key rest dll_path roots_path ld lr over =
      let (c, e, other) = first_cell rest in
      let (roots, g) =
        make_path-Refuses roots_path dir rest roots_suffix lr n roots_suffix-Nonzero over in
      elim (Bool-cases (leb (length dir + length (b'\\' ∷ library_name) + 1) max_path)) [
        | inl fits ↦
            let (dll, f, hd) =
              make_path-Gives dll_path dir rest (b'\\' ∷ library_name) ld n library_name-Nonzero
                (ground arith) in
            rw (install_exit, write_registry, e, other, f, g) refl
        | inr long ↦
            let (dll, f) =
              make_path-Refuses dll_path dir rest (b'\\' ∷ library_name) ld n library_name-Nonzero
                (ground arith) in
            rw (install_exit, write_registry, e, other, f) refl
      ]
