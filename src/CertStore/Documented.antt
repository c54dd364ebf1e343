-- ===== src/CertStore/Documented.antt =====
-- The path of the roots, in BearTLS/wm_cert_store.c, never faults where `GetModuleFileName` keeps
-- to its documentation.
use bear_tls.Base.{
  ℕ, ◌+◌, ◌≤◌, ◌<◌, ◌≡◌, refl, ap, ◌∙◌, ◌==◌, ◌||◌, Bool, true, false, Option, none, some, List, [],
  ◌∷◌, ◌++◌, arith, if◌then◌else◌, ltb, ltb→le, leb, length, length-append, take, drop, codes,
  c_string, memcpy_total, length-memcpy, store, Bool-cases, inl, inr,
}
use bear_tls.CertStore.Paths.{
  max_path, last_slash_loop, find_last_slash, Filled, get_dll_path, cut_at, get_install_dir,
  append_path, get_roots_path,
}

-- A call for an array of 260 cells keeps the array's size, and a length between 0 and 260 tells of
-- a name with its NUL.
abbrev pub Documented : (List ℕ → ℕ → ℕ × List ℕ) → Type 0
Documented get_module_file_name =
    (cells : List ℕ)
    → length cells ≡ max_path
    → (n : ℕ) × (out : List ℕ) × (get_module_file_name cells max_path ≡ (n, out))
      × (length out ≡ max_path)
      × (0 < n → n < max_path → (text : List ℕ) × (rest : List ℕ) × (out ≡ text ++ (0 ∷ rest)))

-- A call on an array of 260 cells that returns, and leaves such an array.
abbrev pub Returns : Option Filled → Type 0
Returns o = (r : Filled) × (o ≡ some r) × (length r.1 ≡ max_path)

abbrev Below : ℕ → Option ℕ → Type 0
Below n none = Unit
Below n (some k) = k < n

pub store_Returns :
    (cells : List ℕ) (k v : ℕ)
    → k < length cells
    → length cells ≡ max_path
    → (out : List ℕ) × (store cells k v ≡ some out) × (length out ≡ max_path)
unfolding store
store_Returns cells k v inside l = (
  take k cells ++ ((v ∷ []) ++ drop (k + 1) cells),
  memcpy_total cells k (v ∷ []) (omega arith),
  length-memcpy cells k (v ∷ []) (omega arith) ∙ l,
)

Below-if :
    (b : Bool) (bound i : ℕ) (last : Option ℕ)
    → i < bound
    → Below bound last
    → Below bound (if b then some i else last)
Below-if true bound i last h l = h
Below-if false bound i last h l = l

last_slash_loop-Below :
    (text rest : List ℕ) (i bound : ℕ) (last : Option ℕ)
    → i + length (text ++ (0 ∷ rest)) ≤ bound
    → Below bound last
    → (found : Option ℕ) × (last_slash_loop (text ++ (0 ∷ rest)) i last ≡ some found)
      × Below bound found
unfolding last_slash_loop
last_slash_loop-Below [] rest i bound last h b = (last, refl, b)
last_slash_loop-Below (c ∷ text) rest i bound last h b = elim (Bool-cases (c == 0)) [
  | inl stop ↦ (last, rw (stop, last_slash_loop) refl, b)
  | inr other ↦
      let slash : Bool = (c == b'\\') || (c == b'/') in
      let (found, f, g) =
        last_slash_loop-Below text rest (i + 1) bound (if slash then some i else last) (omega arith)
          (Below-if slash bound i last (omega arith) b) in
      (found, rw (other, last_slash_loop) f, g)
]

module _ (get_module_file_name : List ℕ → ℕ → ℕ × List ℕ)
    (documented : Documented get_module_file_name) where
  -- The path of the library, which has a NUL where the call returns 1.
  get_dll_path-Returns :
      (out : List ℕ)
      → length out ≡ max_path
      → (r : Filled) × (get_dll_path get_module_file_name out max_path ≡ some r)
        × (length r.1 ≡ max_path)
        × (r.0 ≡ true → (text : List ℕ) × (rest : List ℕ) × (r.1 ≡ text ++ (0 ∷ rest)))
  unfolding get_dll_path
  get_dll_path-Returns out l =
      let (cleared, s, lc) = store_Returns out 0 0 (omega arith) l in
      let (n, named, e, ln, ends) = documented cleared lc in
      elim (Bool-cases ((n == 0) || leb max_path n)) [
        | inl failed ↦
            let (again, t, la) = store_Returns named 0 0 (omega arith) ln in
            ((false, again), rw (get_dll_path, s, e, failed, t) refl, la, λ h. cc)
        | inr fine ↦ (
          (true, named),
          rw (get_dll_path, s, e, fine) refl,
          ln,
          λ h. ends (ground arith) (ground arith),
        )
      ]

  cut_at-Returns :
      (cells : List ℕ) (found : Option ℕ)
      → length cells ≡ max_path
      → Below max_path found
      → Returns (cut_at get_module_file_name cells found)
  unfolding cut_at
  cut_at-Returns cells none l b = ((false, cells), refl, l)
  cut_at-Returns cells (some k) l b =
      let (cut, e, lc) = store_Returns cells k 0 (omega arith) l in ((true, cut), rw e refl, lc)

  get_install_dir-Returns :
      (out : List ℕ)
      → length out ≡ max_path
      → Returns (get_install_dir get_module_file_name out max_path)
  unfolding get_install_dir find_last_slash
  get_install_dir-Returns out l =
      let (r, e, lr, ends) = get_dll_path-Returns out l in
      elim (Bool-cases r.0) [
        | inr failed ↦ ((false, r.1), rw (get_install_dir, e, failed) refl, lr)
        | inl fine ↦
            let (text, rest, c) = ends fine in
            let inside : 0 + length (text ++ (0 ∷ rest)) ≤ max_path =
              omega (arith, ap length c, lr) in
            let (found, f, b) = last_slash_loop-Below text rest 0 max_path none inside tt in
            let slash : find_last_slash r.1 ≡ some found = rw c f in
            let (r', g, l') = cut_at-Returns r.1 found lr b in
            (r', rw (get_install_dir, e, fine, slash) g, l')
      ]

  append_path-Returns :
      (cells suffix : List ℕ)
      → length cells ≡ max_path
      → Returns (append_path get_module_file_name cells max_path suffix)
  unfolding append_path
  append_path-Returns cells suffix l =
      let text = c_string cells in
      let ending = suffix ++ (0 ∷ []) in
      elim (Bool-cases (ltb max_path (length text + length suffix + 1))) [
        | inl long ↦ ((false, cells), rw (append_path, long) refl, l)
        | inr short ↦
            let room : length text + length ending ≤ length cells =
              omega (arith, length-append suffix (0 ∷ []), ltb→le _ _ short) in
            (
              (
                true,
                take (length text) cells ++ (ending ++ drop (length text + length ending) cells),
              ),
              rw (append_path, short, memcpy_total cells (length text) ending room) refl,
              length-memcpy cells (length text) ending room ∙ l,
            )
      ]

  pub get_roots_path-Returns :
      (out : List ℕ)
      → length out ≡ max_path
      → Returns (get_roots_path get_module_file_name out max_path)
  unfolding get_roots_path
  get_roots_path-Returns out l =
      let (r, e, lr) = get_install_dir-Returns out l in
      elim (Bool-cases r.0) [
        | inr failed ↦ ((false, r.1), rw (get_roots_path, e, failed) refl, lr)
        | inl fine ↦
            let (r', f, l') = append_path-Returns r.1 (codes "\\certs\\roots.pem") lr in
            (r', rw (get_roots_path, e, fine) f, l')
      ]
