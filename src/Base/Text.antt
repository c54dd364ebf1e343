-- ===== src/Base/Text.antt =====
-- Text constants of the source, as lists of character codes, and C strings in arrays.
use Prim.Native.Nat.{ℕ, zero, suc, ◌<◌}
use mathlib.Core.Path.{◌≡◌, refl, ap}
use native.Mathlib.Omega.{arith}
use bear_tls.Base.Tests.{◌==◌, if◌then◌else◌}
use bear_tls.Base.Lists.{take, All}
use Prim.Native.Char.{code}
use Prim.Native.String.{String}
use mathlib.Core.Bool.{false}
use mathlib.Core.List.{List, [], ◌∷◌, ◌++◌}

abbrev pub codes : String → List ℕ
codes String.[] = []
codes (String.◌∷◌ c s) = code c ∷ codes s

-- A C string in an array: the cells before the first NUL.
unfoldable pub c_string : List ℕ → List ℕ
c_string [] = []
c_string (c ∷ cells) = if c == 0 then [] else c ∷ c_string cells

abbrev pub Nonzero : List ℕ → Type 0
Nonzero text = All (λ c. 0 < c) text

pub c_string-append : (text rest : List ℕ) → Nonzero text → c_string (text ++ (0 ∷ rest)) ≡ text
unfolding c_string
c_string-append [] rest n = refl
c_string-append (c ∷ text) rest (pos, n) =
    let other : (c == 0) ≡ false = ground arith in
    rw other (ap (λ t. c ∷ t) (c_string-append text rest n))

pub Nonzero-append : (a b : List ℕ) → Nonzero a → Nonzero b → Nonzero (a ++ b)
Nonzero-append [] b na nb = nb
Nonzero-append (c ∷ a) b (pos, na) nb = (pos, Nonzero-append a b na nb)

pub Nonzero-take : (n : ℕ) (a : List ℕ) → Nonzero a → Nonzero (take n a)
Nonzero-take zero a na = tt
Nonzero-take (suc n) [] na = tt
Nonzero-take (suc n) (c ∷ a) (pos, na) = (pos, Nonzero-take n a na)
