-- ===== src/Prelude/Integers.antt =====
-- Integers with a sign, as `int(text)` reads them and `str` prints them. Digits are ASCII.
use Prim.Native.Char.{code}
use Prim.Native.Nat.{ℕ, zero, suc, ◌+◌, ◌-◌, ◌*◌}
use Prim.Native.String.{String, ◌++◌}
use mathlib.Core.Bool.{Bool, true, false, ◌&&◌}
use mathlib.Core.Option.{Option, none, some}
use tv_safety_cleaner.Prelude.Tests.{◌==◌, nat_eq, if◌then◌else◌}
use tv_safety_cleaner.Prelude.Texts.{is_digit, strip}
use tv_safety_cleaner.Prelude.Numbers.{show}

-- `negsuc n` is `-(n + 1)`.
pub data ℤ : Type 0 where
  pos : ℕ → ℤ
  negsuc : ℕ → ℤ

abbrev negate : ℕ → ℤ
negate zero = pos zero
negate (suc n) = negsuc n

-- The digits, with single underscores between them, after the number `n`.
unfoldable digits_from : Bool → ℕ → String → Option ℕ
digits_from after_digit n String.[] = if after_digit then some n else none
digits_from after_digit n (String.◌∷◌ c s) =
    let longer = digits_from true (n * 10 + (code c - b'0')) s in
    let skipped = digits_from false n s in
    if is_digit (code c) then longer else if code c == b'_' && after_digit then skipped else none

abbrev signed : (ℕ → ℤ) → Option ℕ → Option ℤ
signed f none = none
signed f (some n) = some (f n)

abbrev int_at : String → Option ℤ
int_at String.[] = none
int_at (String.◌∷◌ c s) =
    if code c == b'-'
    then signed negate (digits_from false 0 s)
    else if code c == b'+'
    then signed pos (digits_from false 0 s)
    else signed pos (digits_from false 0 (String.◌∷◌ c s))

-- `int(s)`, or nothing where it raises a ValueError.
unfoldable pub int_of : String → Option ℤ
unfolding digits_from strip
int_of s = int_at (strip s)

-- `str(i)`
unfoldable pub show_int : ℤ → String
unfolding show
show_int (pos n) = show n
show_int (negsuc n) = "-" ++ show (suc n)
