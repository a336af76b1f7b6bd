-- ===== src/Observer/Platform.antt =====
-- tv_observer/platform.py: which television platform the evidence speaks for. The set of packages is
-- a list; texts are compared after lower-casing, as lists of code points.
pub mod Detecting
use Prim.Native.Char.{code}
use tv_safety_cleaner.Prelude.{
  ℕ, ◌<>◌, String, Bool, true, false, Option, none, some, List, [], ◌∷◌, ◌++◌, map, not, ◌&&◌, ◌||◌,
  ◌==◌, nat_eq, if◌then◌else◌, any, leb, length, codes, lower, same_codes, has_substring,
  starts_with, split_lines,
}
use tv_safety_cleaner.Prelude.Dict.{Dict, lookup, insert}

pub data Platform : Type 0 where
  fire_os google_tv android_tv vega_os unknown : Platform

pub record PlatformEvidence : Type 0 where
  pub properties : Dict String
  pub packages : List String
  pub launcher : String

pub record Detection : Type 0 where
  pub platform : Platform
  pub confidence : String
  pub signals : List String

-- `line[:-1] if line.endswith("]") else line`
unfoldable without_bracket : String → String
without_bracket String.[] = ""
without_bracket (String.◌∷◌ c String.[]) = if code c == b']' then "" else String.◌∷◌ c ""
without_bracket (String.◌∷◌ c s) = String.◌∷◌ c (without_bracket s)

abbrev drop_4 : String → String
drop_4 (String.◌∷◌ _ (String.◌∷◌ _ (String.◌∷◌ _ (String.◌∷◌ _ s)))) = s
drop_4 s = ""

abbrev consed : String → Option (String × String) → Option (String × String)
consed c none = none
consed c (some (a, b)) = some (c <> a, b)

-- `split("]: [", 1)`, where the marker occurs.
unfoldable split_marker : String → Option (String × String)
unfolding starts_with
split_marker String.[] = none
split_marker (String.◌∷◌ c s) =
    let rest = split_marker s in
    if starts_with (codes (String.◌∷◌ c s)) (codes "]: [")
    then some ("", drop_4 (String.◌∷◌ c s))
    else consed (String.◌∷◌ c "") rest

-- The text of a line after its opening bracket.
abbrev opened : String → Option String
opened String.[] = none
opened (String.◌∷◌ c s) = if code c == b'[' then some s else none

abbrev add_property : Option (String × String) → Dict String → Dict String
add_property none result = result
add_property (some (key, value)) result = insert key (without_bracket value) result

abbrev add_line : Option String → Dict String → Dict String
add_line none result = result
add_line (some s) result = add_property (split_marker s) result

unfoldable parse_lines : List String → Dict String → Dict String
unfolding split_marker without_bracket insert
parse_lines [] result = result
parse_lines (line ∷ lines) result = parse_lines lines (add_line (opened line) result)

unfoldable pub parse_properties : String → Dict String
unfolding parse_lines split_lines
parse_properties raw = parse_lines (split_lines raw) []

-- `signal for signal, present in … if present`
unfoldable pub present : List (String × Bool) → List String
present [] = []
present ((signal, true) ∷ rest) = signal ∷ present rest
present ((_, false) ∷ rest) = present rest

abbrev or_no_text : Option String → List ℕ
or_no_text none = []
or_no_text (some value) = lower (codes value)

-- `props.get(key, "")`
unfoldable pub property : PlatformEvidence → String → List ℕ
unfolding lookup lower
property evidence key = or_no_text (lookup key evidence.properties)

unfoldable pub launcher_of : PlatformEvidence → List ℕ
unfolding lower
launcher_of evidence = lower (codes evidence.launcher)

unfoldable pub any_package : (List ℕ → Bool) → PlatformEvidence → Bool
unfolding lower
any_package test evidence = any (λ name. test (lower (codes name))) evidence.packages

unfoldable pub fire_signals : PlatformEvidence → List (String × Bool)
unfolding property launcher_of any_package has_substring starts_with
fire_signals evidence =
    (
      "amazon manufacturer",
      has_substring (codes "amazon") (property evidence "ro.product.manufacturer"),
    )
    ∷ ("fire product", has_substring (codes "fire") (property evidence "ro.build.product"))
    ∷ ("amazon package", any_package (λ name. starts_with name (codes "com.amazon.")) evidence)
    ∷ ("amazon launcher", has_substring (codes "amazon") (launcher_of evidence))
    ∷ []

unfoldable pub vega_signals : PlatformEvidence → List (String × Bool)
unfolding property any_package has_substring
vega_signals evidence =
    ("vega property", has_substring (codes "vega") (property evidence "ro.build.version.name"))
    ∷ ("vega product", has_substring (codes "vega") (property evidence "ro.product.name"))
    ∷ ("vega package", any_package (has_substring (codes "vega")) evidence)
    ∷ []

unfoldable pub google_signals : PlatformEvidence → List (String × Bool)
unfolding property launcher_of any_package has_substring
google_signals evidence =
    (
      "google tv feature",
      any_package (λ name. same_codes name (codes "com.google.android.feature.google_tv")) evidence,
    )
    ∷ (
      "google tv launcher",
      has_substring (codes "googletv") (launcher_of evidence)
          || has_substring (codes "google.tv") (launcher_of evidence),
    )
    ∷ (
      "google tv product",
      has_substring (codes "google tv") (property evidence "ro.product.model"),
    )
    ∷ []

unfoldable pub android_signals : PlatformEvidence → List (String × Bool)
unfolding property launcher_of any_package has_substring
android_signals evidence =
    (
      "leanback feature",
      any_package (λ name. same_codes name (codes "android.software.leanback")) evidence,
    )
    ∷ (
      "tv launcher",
      has_substring (codes "tvlauncher") (launcher_of evidence)
          || has_substring (codes "leanback") (launcher_of evidence),
    )
    ∷ ("television ui", same_codes (property evidence "ro.build.characteristics") (codes "tv"))
    ∷ []

abbrev pub Candidate : Type 0
Candidate = Platform × List String

-- `if len(found) >= 2: candidates.append((platform, found))`
unfoldable pub candidate : Platform → List (String × Bool) → List Candidate
unfolding present
candidate platform signals =
    if leb 2 (length (present signals)) then (platform, present signals) ∷ [] else []

unfoldable pub all_signals : List Candidate → List String
all_signals [] = []
all_signals ((_, found) ∷ rest) = found ++ all_signals rest

unfoldable pub decide : List Candidate → Detection
unfolding all_signals
decide ((platform, signals) ∷ []) = record {
  platform = platform;
  confidence = "multi-signal";
  signals = signals;
}
decide candidates = record {
  platform = unknown;
  confidence = "insufficient-or-conflicting";
  signals = all_signals candidates;
}

unfoldable pub detect_platform : PlatformEvidence → Detection
unfolding fire_signals vega_signals google_signals android_signals candidate decide
detect_platform evidence = decide (
    candidate fire_os (fire_signals evidence)
    ++ (candidate vega_os (vega_signals evidence)
        ++ (candidate google_tv (google_signals evidence)
            ++ candidate android_tv (android_signals evidence))))
