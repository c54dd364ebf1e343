-- ===== src/CertStore/Locate.antt =====
-- Where the runtime of BearTLS/wm_cert_store.c finds itself and its roots, for a call of
-- `GetModuleFileName` that does what its documentation says.
use bear_tls.Base.{
  ℕ, suc, ◌+◌, ◌≤◌, ◌<◌, ◌≡◌, refl, sym, ap, ◌∙◌, ◌==◌, ◌||◌, true, false, Option, none, some, List,
  [], ◌∷◌, ◌++◌, arith, if◌then◌else◌, ltb, leb, length, drop, All, codes, c_string,
  c_string-append, Nonzero, memcpy, store, store-append, memcpy-append, length-append, length-drop,
  append_assoc,
}
use bear_tls.CertStore.Paths.{
  max_path, last_slash_loop, find_last_slash, Filled, get_dll_path, cut_at, get_install_dir,
  append_path, get_roots_path,
}

-- A part of a path without slashes.
abbrev pub Plain : List ℕ → Type 0
Plain text = All (λ c. (0 < c) × ((c == b'\\') ≡ false) × ((c == b'/') ≡ false)) text

-- An array of 260 cells with a text and its NUL.
abbrev pub Cells : List ℕ → List ℕ → Type 0
Cells text cells = (rest : List ℕ) × (cells ≡ text ++ (0 ∷ rest)) × (length cells ≡ max_path)

last_slash_loop-Plain :
    (text rest : List ℕ) (i : ℕ) (last : Option ℕ)
    → Plain text
    → last_slash_loop (text ++ (0 ∷ rest)) i last ≡ some last
unfolding last_slash_loop
last_slash_loop-Plain [] rest i last n = refl
last_slash_loop-Plain (c ∷ text) rest i last ((pos, back, forward), n) =
    let other : (c == 0) ≡ false = ground arith in
    rw (other, last_slash_loop, back, forward) (last_slash_loop-Plain text rest (i + 1) last n)

-- What is found in a text is forgotten at a later slash.
last_slash_loop-dir :
    (dir tail : List ℕ) (i : ℕ) (last : Option ℕ)
    → Nonzero dir
    → (last' : Option ℕ) × (last_slash_loop (dir ++ tail) i last
        ≡ last_slash_loop tail (i + length dir) last')
unfolding last_slash_loop
last_slash_loop-dir [] tail i last n = let e : i + 0 ≡ i = omega arith in (last, rw e refl)
last_slash_loop-dir (c ∷ dir) tail i last (pos, n) =
    let other : (c == 0) ≡ false = ground arith in
    let e : i + suc (length dir) ≡ i + 1 + length dir = omega arith in
    let (last', f) =
      last_slash_loop-dir dir tail (i + 1) (if (c == b'\\') || (c == b'/') then some i else last)
        n in
    (last', rw (other, last_slash_loop, e) f)

find_last_slash_lem :
    (dir file rest : List ℕ)
    → Nonzero dir
    → Plain file
    → find_last_slash ((dir ++ (b'\\' ∷ file)) ++ (0 ∷ rest)) ≡ some (some (length dir))
unfolding find_last_slash last_slash_loop
find_last_slash_lem dir file rest n plain =
    let (last, e) = last_slash_loop-dir dir (b'\\' ∷ (file ++ (0 ∷ rest))) 0 none n in
    let z : 0 + length dir ≡ length dir = omega arith in
    rw (append_assoc dir (b'\\' ∷ file) (0 ∷ rest)) (
      e
      ∙ last_slash_loop-Plain file rest (0 + length dir + 1) (some (0 + length dir)) plain
      ∙ rw z refl)

-- `GetModuleFileName` for a module at `path`, which fits: it returns the length of the path and
-- writes the path with its NUL into an array of 260 cells.
abbrev pub Located : (List ℕ → ℕ → ℕ × List ℕ) → List ℕ → Type 0
Located get_module_file_name path =
    (cells : List ℕ)
    → length cells ≡ max_path
    → (out : List ℕ) × (get_module_file_name cells max_path ≡ (length path, out)) × Cells path out

abbrev pub roots_suffix : List ℕ
roots_suffix = codes "\\certs\\roots.pem"

-- A call that succeeds and leaves `text` in its array.
abbrev pub Gives : List ℕ → Option Filled → Type 0
Gives text o = (cells : List ℕ) × (o ≡ some (true, cells)) × Cells text cells

store_first :
    (out : List ℕ)
    → length out ≡ max_path
    → (cleared : List ℕ) × (store out 0 0 ≡ some cleared) × (length cleared ≡ max_path)
store_first [] l = cc
store_first (c ∷ cs) l = (0 ∷ cs, store-append [] cs c 0 0 refl, l)

module _ (get_module_file_name : List ℕ → ℕ → ℕ × List ℕ) (dir file : List ℕ)
    (found : Located get_module_file_name (dir ++ (b'\\' ∷ file))) (n : Nonzero dir)
    (plain : Plain file) (fits : length (dir ++ (b'\\' ∷ file)) < max_path) where
  abbrev pub dll : List ℕ
  dll = dir ++ (b'\\' ∷ file)

  dll_pos : 0 < length dll
  dll_pos = omega (arith, length-append dir (b'\\' ∷ file))

  pub get_dll_path-Gives :
      (out : List ℕ)
      → length out ≡ max_path
      → Gives dll (get_dll_path get_module_file_name out max_path)
  unfolding get_dll_path
  get_dll_path-Gives out l =
      let (cleared, s, lc) = store_first out l in
      let (named, e, holds) = found cleared lc in
      let ok : (length dll == 0) || leb max_path (length dll) ≡ false =
        ground (arith, dll_pos, fits) in
      (named, rw (get_dll_path, s, e, ok) refl, holds)

  pub get_install_dir-Gives :
      (out : List ℕ)
      → length out ≡ max_path
      → Gives dir (get_install_dir get_module_file_name out max_path)
  unfolding get_install_dir cut_at
  get_install_dir-Gives out l =
      let (cells, e, (rest, c, lc)) = get_dll_path-Gives out l in
      let slash = rw (← c) at (find_last_slash_lem dir file rest n plain) in
      let tail = file ++ (0 ∷ rest) in
      let shape : cells ≡ dir ++ (b'\\' ∷ tail) = c ∙ append_assoc dir (b'\\' ∷ file) (0 ∷ rest) in
      let cut : store cells (length dir) 0 ≡ some (dir ++ (0 ∷ tail)) =
        rw shape (store-append dir tail b'\\' 0 (length dir) refl) in
      let size : length (dir ++ (0 ∷ tail)) ≡ max_path = omega (
        arith,
        length-append dir (0 ∷ tail),
        length-append dir (b'\\' ∷ tail),
        ap length shape,
        lc,
      ) in
      (dir ++ (0 ∷ tail), rw (get_install_dir, e, slash, cut_at, cut) refl, (tail, refl, size))

  append_path-Gives :
      (cells suffix : List ℕ)
      → Cells dir cells
      → length dir + length suffix + 1 ≤ max_path
      → Gives (dir ++ suffix) (append_path get_module_file_name cells max_path suffix)
  unfolding append_path
  append_path-Gives cells suffix (rest, c, l) room =
      let held : c_string cells ≡ dir = rw c (c_string-append dir rest n) in
      let lc = ap length c ∙ length-append dir (0 ∷ rest) in
      let la = length-append suffix (0 ∷ []) in
      let fine : ltb max_path (length dir + length suffix + 1) ≡ false = ground arith in
      let after : List ℕ = drop (length (suffix ++ (0 ∷ []))) (0 ∷ rest) in
      let copied : memcpy cells (length dir) (suffix ++ (0 ∷ []))
          ≡ some (dir ++ ((suffix ++ (0 ∷ [])) ++ after)) =
        rw c (
          memcpy-append dir (0 ∷ rest) (suffix ++ (0 ∷ [])) (length dir) refl
            (omega (arith, lc, la, l))) in
      let shape : dir ++ ((suffix ++ (0 ∷ [])) ++ after) ≡ (dir ++ suffix) ++ (0 ∷ after) =
        ap (λ t. dir ++ t) (append_assoc suffix (0 ∷ []) after)
        ∙ sym (append_assoc dir suffix (0 ∷ after)) in
      let size : length ((dir ++ suffix) ++ (0 ∷ after)) ≡ max_path = omega (
        arith,
        length-append (dir ++ suffix) (0 ∷ after),
        length-append dir suffix,
        length-drop (length (suffix ++ (0 ∷ []))) (0 ∷ rest),
        la,
        lc,
        l,
      ) in
      (
        (dir ++ suffix) ++ (0 ∷ after),
        rw (append_path, held, fine, copied, shape) refl,
        (after, refl, size),
      )

  -- The path of the roots is the directory of the library with `\certs\roots.pem` behind it, for a
  -- library at a path of less than 260 characters whose directory leaves room for that.
  pub get_roots_path-Gives :
      (out : List ℕ)
      → length out ≡ max_path
      → length dir + length roots_suffix + 1 ≤ max_path
      → Gives (dir ++ roots_suffix) (get_roots_path get_module_file_name out max_path)
  unfolding get_roots_path
  get_roots_path-Gives out l room =
      let (cells, e, holds) = get_install_dir-Gives out l in
      let (joined, f, h) = append_path-Gives cells roots_suffix holds room in
      (joined, rw (get_roots_path, e) f, h)
