-- ===== src/CertStore/Paths.antt =====
-- The paths of the runtime and its registration: `DllMain`, `wm_bear_tls_find_last_slash`,
-- `wm_bear_tls_get_dll_path`, `wm_bear_tls_get_install_dir`, `wm_bear_tls_append_path`,
-- `wm_bear_tls_get_roots_path` and `wm_bear_tls_register_runtime` of BearTLS/wm_cert_store.c.
use bear_tls.Base.{
  ℕ, ◌+◌, ◌==◌, ◌||◌, ◌>>=◌, Bool, true, false, not, Option, none, some, List, [], ◌∷◌, ◌++◌,
  if◌then◌else◌, ltb, leb, length, memcpy, store, codes, c_string,
}

abbrev pub max_path : ℕ
max_path = 260

-- `DLL_PROCESS_ATTACH`
abbrev pub dll_process_attach : ℕ
dll_process_attach = 1

-- `g_bear_tls_module` after the call; `none` is the null handle.
unfoldable pub dll_main : Option ℕ → ℕ → ℕ → Option ℕ
dll_main current instance_handle reason =
    if reason == dll_process_attach then some instance_handle else current

-- The offset of the last slash before the NUL, with `i` cells passed; `none` where there is no NUL.
unfoldable pub last_slash_loop : List ℕ → ℕ → Option ℕ → Option (Option ℕ)
last_slash_loop [] i last = none
last_slash_loop (c ∷ cells) i last = elim (c == 0) [
  | true ↦ some last
  | false ↦ last_slash_loop cells (i + 1) (if (c == b'\\') || (c == b'/') then some i else last)
]

unfoldable pub find_last_slash : List ℕ → Option (Option ℕ)
find_last_slash path = last_slash_loop path 0 none

-- A call that fills an array: its return value and the cells. A whole `none` is a memory fault.
abbrev pub Filled : Type 0
Filled = Bool × List ℕ

-- `GetModuleFileName(g_bear_tls_module, out, out_count)`, from the cells before to the return value
-- and the cells after.
module _ (get_module_file_name : List ℕ → ℕ → ℕ × List ℕ) where
  -- `out` is not null.
  unfoldable pub get_dll_path : List ℕ → ℕ → Option Filled
  get_dll_path out out_count =
      if out_count == 0
      then some (false, out)
      else (store out 0 0 >>= λ cleared.
          let (n, named) = get_module_file_name cleared out_count in
          if (n == 0) || leb out_count n
          then (store named 0 0 >>= λ failed. some (false, failed))
          else some (true, named))

  -- `*last = 0`, where there is a slash.
  unfoldable pub cut_at : List ℕ → Option ℕ → Option Filled
  cut_at out none = some (false, out)
  cut_at out (some last) = store out last 0 >>= λ cut. some (true, cut)

  unfoldable pub get_install_dir : List ℕ → ℕ → Option Filled
  get_install_dir out out_count = get_dll_path out out_count >>= λ path.
      if path.0
      then (find_last_slash path.1 >>= λ last. cut_at path.1 last)
      else some (false, path.1)

  -- `suffix` is a text without its NUL.
  unfoldable pub append_path : List ℕ → ℕ → List ℕ → Option Filled
  append_path path path_count suffix =
      let path_len = length (c_string path) in
      if ltb path_count (path_len + length suffix + 1)
      then some (false, path)
      else (memcpy path path_len (suffix ++ (0 ∷ [])) >>= λ joined. some (true, joined))

  unfoldable pub get_roots_path : List ℕ → ℕ → Option Filled
  get_roots_path out out_count = get_install_dir out out_count >>= λ dir.
      if dir.0
      then append_path dir.1 out_count (codes "\\certs\\roots.pem")
      else some (false, dir.1)

  -- A value of the registry: its name, and its text with the NUL.
  abbrev pub reg_value : List ℕ → List ℕ → List ℕ × List ℕ
  reg_value name cells = (name, c_string cells ++ (0 ∷ []))

  -- The return value and the values set under `Software\BearTLS`. `created` tells of
  -- `RegCreateKeyEx`; the three arrays on the stack hold what they hold.
  unfoldable pub register_runtime :
      Bool → List ℕ → List ℕ → List ℕ → Option (Bool × List (List ℕ × List ℕ))
  register_runtime created stack1 stack2 stack3 = get_dll_path stack1 max_path >>= λ dll.
      if not dll.0
      then some (false, [])
      else (get_install_dir stack2 max_path >>= λ dir.
          if not dir.0
          then some (false, [])
          else (get_roots_path stack3 max_path >>= λ roots.
              if not roots.0 || not created
              then some (false, [])
              else some (
                true,
                reg_value (codes "InstallDir") dir.1
                    ∷ reg_value (codes "DllPath") dll.1
                    ∷ reg_value (codes "RootsPath") roots.1
                    ∷ (codes "Version", codes "1.0.0" ++ (0 ∷ []))
                    ∷ [],
              )))
