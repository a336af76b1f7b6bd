-- ===== src/Prelude/Numbers.antt =====
-- Numbers as the program prints and divides them.
use Prim.Native.Nat.{ℕ, zero, suc, ◌/◌, ◌%◌}
use Prim.Native.String.{String, ◌++◌}
use mathlib.Core.List.{List, [], ◌∷◌}

abbrev pick : List String → ℕ → String
pick [] n = ""
pick (d ∷ ds) zero = d
pick (d ∷ ds) (suc n) = pick ds n

abbrev digit : ℕ → String
digit = pick ("0" ∷ "1" ∷ "2" ∷ "3" ∷ "4" ∷ "5" ∷ "6" ∷ "7" ∷ "8" ∷ "9" ∷ [])

-- The digits of a number that is below 10 to the fuel, before the text `rest`.
unfoldable digits_before : ℕ → ℕ → String → String
digits_before zero n rest = rest
digits_before (suc fuel) n rest = elim (n / 10) [
  | zero ↦ digit (n % 10) ++ rest
  | suc m ↦ digits_before fuel (suc m) (digit (n % 10) ++ rest)
]

-- `str(n)`; a number has at most as many digits as its successor is large.
unfoldable pub show : ℕ → String
unfolding digits_before
show n = digits_before (suc n) n ""
