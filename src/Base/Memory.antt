-- ===== src/Base/Memory.antt =====
-- A C array is a list of cells. A write that leaves it is a fault, `none`.
use Prim.Native.Nat.{ℕ, zero, suc, ◌+◌, ◌≤◌, ◌<◌}
use mathlib.Core.Path.{◌≡◌, refl, ap, ap₂, sym, ◌∙◌}
use mathlib.Core.List.{List, [], ◌∷◌, ◌++◌}
use mathlib.Core.Option.{Option, none, some}
use native.Mathlib.Omega.{arith}
use bear_tls.Base.Tests.{leb, if◌then◌else◌}
use bear_tls.Base.Lists.{
  length, take, drop, length-append, length-take, length-drop, take-append_left, drop-drop,
  drop-append_left,
}

-- `memcpy(buf + off, src, n)` for the `n` bytes of `src`.
unfoldable pub memcpy : List ℕ → ℕ → List ℕ → Option (List ℕ)
memcpy buf off src =
    if leb (off + length src) (length buf)
    then some (take off buf ++ (src ++ drop (off + length src) buf))
    else none

-- `buf[i] = v`
unfoldable pub store : List ℕ → ℕ → ℕ → Option (List ℕ)
unfolding memcpy
store buf i v = memcpy buf i (v ∷ [])

pub memcpy_total :
    (buf : List ℕ) (off : ℕ) (src : List ℕ)
    → off + length src ≤ length buf
    → memcpy buf off src ≡ some (take off buf ++ (src ++ drop (off + length src) buf))
unfolding memcpy
memcpy_total buf off src h = ground arith

pub length-memcpy :
    (buf : List ℕ) (off : ℕ) (src : List ℕ)
    → off + length src ≤ length buf
    → length (take off buf ++ (src ++ drop (off + length src) buf)) ≡ length buf
length-memcpy buf off src h = omega (
  arith,
  length-append (take off buf) (src ++ drop (off + length src) buf),
  length-append src (drop (off + length src) buf),
  length-take off buf,
  length-drop (off + length src) buf,
)

-- A write that begins where `before` ends, and fits in the cells behind it.
pub memcpy-append :
    (before after src : List ℕ) (off : ℕ)
    → off ≡ length before
    → length src ≤ length after
    → memcpy (before ++ after) off src ≡ some (before ++ (src ++ drop (length src) after))
memcpy-append before after src off at fits =
    memcpy_total (before ++ after) off src (omega (arith, length-append before after))
    ∙ ap₂ (λ l r. some (l ++ (src ++ r))) (take-append_left before after off at) skipped
  where
    skipped : drop (off + length src) (before ++ after) ≡ drop (length src) after
    skipped =
        sym (drop-drop (length src) off (before ++ after))
        ∙ ap (drop (length src)) (drop-append_left before after off at)

pub store-append :
    (before after : List ℕ) (x v off : ℕ)
    → off ≡ length before
    → store (before ++ (x ∷ after)) off v ≡ some (before ++ (v ∷ after))
unfolding store
store-append before after x v off at =
    memcpy-append before (x ∷ after) (v ∷ []) off at (omega arith)

-- The cells from `n` on, where there is one.
pub drop-cons :
    (n : ℕ) (xs : List ℕ)
    → n < length xs
    → (x : ℕ) × (ys : List ℕ) × (drop n xs ≡ x ∷ ys) × (length ys + n + 1 ≡ length xs)
drop-cons n [] h = absurd (omega arith)
drop-cons zero (x ∷ xs) h = (x, xs, refl, omega arith)
drop-cons (suc n) (x ∷ xs) h =
    let (y, ys, e, l) = drop-cons n xs (omega arith) in (y, ys, e, omega arith)
