-- ===== src/Prelude/Texts.antt =====
-- Texts where the program walks them: the code points of a string, as numbers. Case is folded over
-- the ASCII letters; the program's package names, markers and file names are ASCII.
use Prim.Native.Char.{code}
use Prim.Native.Nat.{ℕ, zero, suc, ◌+◌}
use Prim.Native.String.{String, ◌++◌ as append}
use mathlib.Core.Bool.{Bool, true, false, ◌&&◌, ◌||◌}
use mathlib.Core.List.{List, [], ◌∷◌, map}
use tv_safety_cleaner.Prelude.Tests.{◌==◌, nat_eq, leb, if◌then◌else◌}

abbrev pub codes : String → List ℕ
codes String.[] = []
codes (String.◌∷◌ c s) = code c ∷ codes s

unfoldable pub lower_code : ℕ → ℕ
lower_code c = if leb b'A' c && leb c b'Z' then c + 32 else c

-- `s.lower()`
unfoldable pub lower : List ℕ → List ℕ
unfolding lower_code
lower s = map lower_code s

-- `s == t`, by code points.
abbrev pub same_codes : List ℕ → List ℕ → Bool
same_codes [] [] = true
same_codes (c ∷ s) (d ∷ t) = c == d && same_codes s t
same_codes _ _ = false

-- `s.startswith(p)`
unfoldable pub starts_with : List ℕ → List ℕ → Bool
starts_with s [] = true
starts_with [] (p ∷ ps) = false
starts_with (c ∷ s) (p ∷ ps) = c == p && starts_with s ps

-- `p in s`
unfoldable pub has_substring : List ℕ → List ℕ → Bool
unfolding starts_with
has_substring p [] = starts_with [] p
has_substring p (c ∷ s) = starts_with (c ∷ s) p || has_substring p s

-- The first `n` characters, `s[:n]`.
unfoldable pub prefix_of : ℕ → String → String
prefix_of zero s = ""
prefix_of (suc n) String.[] = ""
prefix_of (suc n) (String.◌∷◌ c s) = String.◌∷◌ c (prefix_of n s)

-- The code points that `str.strip` and `str.split` take for white space.
unfoldable pub is_space : ℕ → Bool
is_space c =
    (leb 9 c && leb c 13)
    || (leb 28 c && leb c 32)
    || c == 133
    || c == 160
    || c == 5760
    || (leb 8192 c && leb c 8202)
    || (c == 8232 || c == 8233 || c == 8239 || c == 8287 || c == 12288)

unfoldable pub lstrip : String → String
unfolding is_space
lstrip String.[] = ""
lstrip (String.◌∷◌ c s) = let rest = lstrip s in if is_space (code c) then rest else String.◌∷◌ c s

abbrev pub is_empty : String → Bool
is_empty String.[] = true
is_empty (String.◌∷◌ c s) = false

unfoldable pub rstrip : String → String
unfolding is_space
rstrip String.[] = ""
rstrip (String.◌∷◌ c s) =
    let rest = rstrip s in if is_empty rest && is_space (code c) then "" else String.◌∷◌ c rest

-- `s.strip()`
unfoldable pub strip : String → String
unfolding lstrip rstrip
strip s = rstrip (lstrip s)

-- A text that ends in `p`: some tail of it is `p`.
unfoldable pub ends_with : List ℕ → List ℕ → Bool
ends_with [] p = same_codes [] p
ends_with (c ∷ s) p = same_codes (c ∷ s) p || ends_with s p

-- [A-Za-z0-9_]
abbrev pub is_word : ℕ → Bool
is_word c =
    (leb b'A' c && leb c b'Z')
    || (leb b'a' c && leb c b'z')
    || (leb b'0' c && leb c b'9')
    || c == b'_'

abbrev pub is_digit : ℕ → Bool
is_digit c = leb b'0' c && leb c b'9'

-- The line breaks of `str.splitlines`.
abbrev is_break : ℕ → Bool
is_break c = (leb 10 c && leb c 13) || (leb 28 c && leb c 30) || c == 133 || c == 8232 || c == 8233

-- The lines from a place where `line` has been read, and `after_return` tells whether a carriage
-- return came last, which makes one break with a line feed.
unfoldable pub lines_from : Bool → String → String → List String
lines_from after_return line String.[] = if is_empty line then [] else line ∷ []
lines_from after_return line (String.◌∷◌ c s) =
    let ended = lines_from (code c == 13) "" s in
    let longer = lines_from false (append line (String.◌∷◌ c "")) s in
    if after_return && code c == 10
    then lines_from false "" s
    else if is_break (code c)
    then line ∷ ended
    else longer

-- `s.splitlines()`
unfoldable pub split_lines : String → List String
unfolding lines_from
split_lines s = lines_from false "" s
