-- ===== src/Installer.antt =====
-- The setup library of the installer, BearTLS_CAB/BearTLS_CAB.cpp: `bt_copy_string`,
-- `bt_append_string`, `bt_set_reg_string`, `bt_write_registry` and the four entry points. A text is
-- a list of cells with its NUL; a whole `none` is a memory fault. No sum here can pass the size of
-- an array, so none wraps.
use bear_tls.Base.{
  ℕ, ◌+◌, ◌==◌, ◌&&◌, ◌>>=◌, Bool, true, false, not, Option, none, some, List, [], ◌∷◌, ◌++◌,
  if◌then◌else◌, ltb, leb, store, get_elem?, codes, c_string,
}
use bear_tls.CertStore.Paths.{max_path, Filled}
pub mod Copy
pub mod Registry

-- The loop that writes `src` at `len`, from the character `i` on, and what follows it.
unfoldable pub put_loop : List ℕ → ℕ → ℕ → List ℕ → ℕ → Option Filled
put_loop dest dest_count len [] i = none
put_loop dest dest_count len (c ∷ src) i = elim (ltb (len + i + 1) dest_count && not (c == 0)) [
  | true ↦ store dest (len + i) c >>= λ written. put_loop written dest_count len src (i + 1)
  | false ↦ store dest (len + i) 0 >>= λ closed. some (c == 0, closed)
]

unfoldable pub copy_string : List ℕ → ℕ → List ℕ → Option Filled
copy_string dest dest_count src =
    if dest_count == 0 then some (false, dest) else put_loop dest dest_count 0 src 0

-- `len` after the loop over `dest`, of which `len` cells are passed.
unfoldable pub end_loop : List ℕ → ℕ → ℕ → Option ℕ
end_loop [] dest_count len = if ltb len dest_count then none else some len
end_loop (c ∷ dest) dest_count len = elim (ltb len dest_count && not (c == 0)) [
  | true ↦ end_loop dest dest_count (len + 1)
  | false ↦ some len
]

unfoldable pub append_string : List ℕ → ℕ → List ℕ → Option Filled
append_string dest dest_count suffix =
    if dest_count == 0
    then some (false, dest)
    else (end_loop dest dest_count 0 >>= λ len.
        if leb dest_count len then some (false, dest) else put_loop dest dest_count len suffix 0)

-- The values of a key: their names, and their texts with the NUL.
abbrev pub Values : Type 0
Values = List (List ℕ × List ℕ)

-- The key is null or a handle; the two texts are not null.
unfoldable pub set_reg_string : ℕ → List ℕ → List ℕ → Values → Values
set_reg_string key name value values =
    if key == 0 then values else values ++ ((name, c_string value ++ (0 ∷ [])) ∷ [])

-- One of the two tests that make a path of the directory and `suffix`.
unfoldable pub make_path : List ℕ → List ℕ → List ℕ → Option Filled
make_path path install_dir suffix = copy_string path max_path install_dir >>= λ copied.
    if copied.0
    then append_string copied.1 max_path (suffix ++ (0 ∷ []))
    else some (false, copied.1)

-- The four values that go under an open key.
unfoldable pub set_values : ℕ → List ℕ → List ℕ → List ℕ → Values
set_values key install_dir dll_path roots_path =
    set_reg_string key (codes "Version") (codes "1.0.0" ++ (0 ∷ [])) (
      set_reg_string key (codes "RootsPath") roots_path (
        set_reg_string key (codes "DllPath") dll_path
          (set_reg_string key (codes "InstallDir") install_dir [])))

-- The return value and the values set under `Software\BearTLS`. `key` is what `RegCreateKeyEx`
-- gives, `none` where it fails; `install_dir` may be null; the two arrays hold what they hold.
unfoldable pub write_registry :
    Option ℕ → Option (List ℕ) → List ℕ → List ℕ → Option (Bool × Values)
write_registry key none dll_path roots_path = some (false, [])
write_registry key (some install_dir) dll_path roots_path = get_elem? install_dir 0 >>= λ first.
    if first == 0
    then some (false, [])
    else (make_path dll_path install_dir (codes "\\wm_https.dll") >>= λ dll.
        if not dll.0
        then some (false, [])
        else (make_path roots_path install_dir (codes "\\certs\\roots.pem") >>= λ roots.
            if not roots.0
            then some (false, [])
            else some (elim key [
              | none ↦ (false, [])
              | some handle ↦ (true, set_values handle install_dir dll.1 roots.1)
            ])))

pub data Code : Type 0 where
  install_init_continue : Code
  install_exit_done : Code
  uninstall_init_continue : Code
  uninstall_exit_done : Code

unfoldable pub install_init : Option (List ℕ) → Code
install_init install_dir = install_init_continue

-- The code, whether the warning is shown, and the values set.
unfoldable pub install_exit :
    Option ℕ → Option (List ℕ) → List ℕ → List ℕ → Option (Code × Bool × Values)
install_exit key install_dir dll_path roots_path =
    write_registry key install_dir dll_path roots_path >>= λ written.
    some (install_exit_done, not written.0, written.1)

unfoldable pub uninstall_init : Option (List ℕ) → Code
uninstall_init install_dir = uninstall_init_continue

-- `RegDeleteKey` on the registry.
unfoldable pub uninstall_exit :
    {Registry : Type 0} → (List ℕ → Registry → Registry) → Registry → Code × Registry
uninstall_exit reg_delete_key registry =
    (uninstall_exit_done, reg_delete_key (codes "Software\\BearTLS") registry)
