-- ===== src/Prelude/Matching.antt =====
-- The parts of regular expressions that the program's patterns are made of.
use Prim.Native.Char.{code}
use Prim.Native.Nat.{ℕ}
use Prim.Native.String.{String}
use mathlib.Core.Bool.{Bool}
use mathlib.Core.Option.{Option, none, some}
use mathlib.Core.List.{List, [], ◌∷◌}
use tv_safety_cleaner.Prelude.Tests.{◌==◌, nat_eq, if◌then◌else◌}

abbrev pub or_else : {A : Type 0} → Option A → Option A → Option A
or_else none o = o
or_else (some a) _ = some a

-- What follows the marker, where the text starts with it.
abbrev pub after : List ℕ → String → Option String
after [] s = some s
after (m ∷ marker) String.[] = none
after (m ∷ marker) (String.◌∷◌ c s) = if code c == m then after marker s else none

-- The longest run of characters of a class at the start, and the rest.
abbrev pub span : (ℕ → Bool) → String → String × String
span inside String.[] = ("", "")
span inside (String.◌∷◌ c s) =
    let (run, rest) = span inside s in
    if inside (code c) then (String.◌∷◌ c run, rest) else ("", String.◌∷◌ c s)
