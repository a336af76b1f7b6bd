-- ===== src/Prelude/Substring.antt =====
-- `p in s` holds exactly if `s` has `p` somewhere in it.
use Prim.Native.Nat.{ℕ}
use mathlib.Core.Path.{◌≡◌, refl}
use mathlib.Core.Bool.{true}
use mathlib.Core.List.{List, [], ◌∷◌, ◌++◌}
use native.Mathlib.Omega.{arith}
use tv_safety_cleaner.Prelude.Tests.{nat_eq}
use tv_safety_cleaner.Prelude.Texts.{starts_with, has_substring}

pub starts_with-append : (p s : List ℕ) → starts_with (p ++ s) p ≡ true
unfolding starts_with
starts_with-append [] [] = refl
starts_with-append [] (c ∷ s) = refl
starts_with-append (c ∷ p) s = ground (arith, starts_with-append p s)

starts_with-nil : (s : List ℕ) → starts_with s [] ≡ true
unfolding starts_with
starts_with-nil [] = refl
starts_with-nil (c ∷ s) = refl

pub has_substring_of_append : (a p b : List ℕ) → has_substring p (a ++ (p ++ b)) ≡ true
unfolding has_substring
has_substring_of_append [] [] [] = refl
has_substring_of_append [] [] (c ∷ b) = refl
has_substring_of_append [] (c ∷ p) b = ground (arith, starts_with-append (c ∷ p) b)
has_substring_of_append (c ∷ a) p b = ground (arith, has_substring_of_append a p b)
