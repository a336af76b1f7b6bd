-- ===== src/Controller/Names.antt =====
-- The names that tv_controller/apk_manager.py accepts: `parse_package_input` and
-- `safe_apk_filename`. What `urllib.parse` answers is an argument.
use Prim.Native.Char.{code}
use tv_safety_cleaner.Prelude.{
  ℕ, String, ◌<>◌, ◌≡◌, refl, ap, ◌∙◌, is_space, rstrip, lstrip, Bool, true, false, List, [], ◌∷◌,
  not, ◌&&◌, ◌||◌, ◌==◌, nat_eq, string_eq, if◌then◌else◌, codes, lower, has_substring, ends_with,
  same_codes, strip, is_empty, is_word, arith,
}
use tv_safety_cleaner.Exec.{Result, ok, err, refusal, value_error, chain}

-- `urlparse(candidate)`, and `parse_qs` of its query at the key `id`.
pub record ParsedUrl : Type 0 where
  pub scheme : String
  pub netloc : String
  pub ids : List String

pub record UrlLib : Type 0 where
  pub parse : String → ParsedUrl
  pub unquote : String → String

-- PACKAGE_PATTERN, from a place where `dotted` tells whether a dot has been passed and `inside`
-- whether a character of the current part has.
unfoldable pub matches_from : Bool → Bool → List ℕ → Bool
matches_from dotted inside [] = dotted && inside
matches_from dotted inside (c ∷ s) =
    let word = matches_from dotted true s in
    let dot = matches_from true false s in
    if is_word c then word else if c == b'.' && inside then dot else false

unfoldable pub is_package_id : String → Bool
unfolding matches_from
is_package_id s = matches_from false false (codes s)

abbrev pub first_id : List String → String
first_id [] = ""
first_id (v ∷ _) = strip v

abbrev pub is_play_store : ParsedUrl → Bool
is_play_store url =
    url.scheme == "https" && same_codes (lower (codes url.netloc)) (codes "play.google.com")

-- The candidate for the package id: the text itself, or the `id` of a Google Play address.
unfoldable pub candidate_of : UrlLib → String → Result String
candidate_of lib text =
    let url = lib.parse text in
    if is_empty url.scheme && is_empty url.netloc
    then ok text
    else if not (is_play_store url)
    then err (value_error "Only HTTPS Google Play application URLs are accepted")
    else ok (first_id url.ids)

unfoldable pub parse_package_input : UrlLib → String → Result String
unfolding candidate_of
parse_package_input lib value =
    if is_empty (strip value)
    then err (value_error "Package ID is empty")
    else chain (candidate_of lib (strip value)) λ candidate.
      if not (is_package_id candidate)
      then err (value_error ("Invalid Android package ID: " <> strip value))
      else ok candidate

-- [A-Za-z0-9._+-]
abbrev is_apk_code : ℕ → Bool
is_apk_code c = is_word c || c == b'.' || c == b'+' || c == b'-'

abbrev all_apk_codes : List ℕ → Bool
all_apk_codes [] = true
all_apk_codes (c ∷ s) = is_apk_code c && all_apk_codes s

-- A name that ends in `.apk` is its own last path component if it has no slash; the last pattern
-- also wants a character before the suffix.
unfoldable pub safe_apk_filename : UrlLib → String → Result String
safe_apk_filename lib value =
    let name = strip (lib.unquote value) in
    if is_empty name
      || has_substring (codes "/") (codes name)
      || has_substring (codes "\\") (codes name)
      || has_substring (codes "..") (codes name)
      || not (ends_with (lower (codes name)) (codes ".apk"))
    then err (refusal "Unsafe APK filename")
    else if not (all_apk_codes (codes name)) || same_codes (lower (codes name)) (codes ".apk")
    then err (refusal "APK filename contains unsupported characters")
    else ok name

-- Whatever the address parser answers, an accepted package id matches the pattern.
pub parse_package_input-IsPackageId :
    (lib : UrlLib) (value p : String)
    → parse_package_input lib value ≡ ok p
    → is_package_id p ≡ true
unfolding parse_package_input
parse_package_input-IsPackageId lib value p h = ground arith

-- `urlparse` finds neither a scheme nor a host in a dotted name.
abbrev pub LeavesNames : UrlLib → Type 0
LeavesNames lib =
    (p : String)
    → is_package_id p ≡ true
    → ((lib.parse p).scheme ≡ "") × ((lib.parse p).netloc ≡ "")

is_word-is_space : (c : ℕ) → is_word c ≡ true → is_space c ≡ false
unfolding is_space
is_word-is_space c h = ground arith

is_dot-is_space : (c : ℕ) → (c == b'.') ≡ true → is_space c ≡ false
unfolding is_space
is_dot-is_space c h = ground arith

rstrip_name :
    (dotted inside : Bool) (s : String) → matches_from dotted inside (codes s) ≡ true → rstrip s ≡ s
unfolding matches_from rstrip
rstrip_name dotted inside String.[] h = refl
rstrip_name dotted inside (String.◌∷◌ c s) h = ground (
  arith,
  is_word-is_space (code c),
  is_dot-is_space (code c),
  rstrip_name dotted true s,
  rstrip_name true false s,
)

lstrip_name : (s : String) → is_package_id s ≡ true → lstrip s ≡ s
unfolding is_package_id matches_from lstrip
lstrip_name String.[] h = refl
lstrip_name (String.◌∷◌ c s) h = ground (arith, is_word-is_space (code c), is_dot-is_space (code c))

strip_name : (s : String) → is_package_id s ≡ true → strip s ≡ s
unfolding strip is_package_id
strip_name s h = ap rstrip (lstrip_name s (unfold is_package_id in h)) ∙ rstrip_name false false s h

name_not_empty : (s : String) → is_package_id s ≡ true → is_empty s ≡ false
unfolding is_package_id matches_from
name_not_empty String.[] h = cc
name_not_empty (String.◌∷◌ c s) h = refl

-- A package id is read as itself, so a name that has been read once is read the same again.
pub parse_package_input_name :
    (lib : UrlLib) (p : String)
    → LeavesNames lib
    → is_package_id p ≡ true
    → parse_package_input lib p ≡ ok p
unfolding parse_package_input candidate_of
parse_package_input_name lib p leaves h =
    let (no_scheme, no_host) = leaves p h in
    let scheme : is_empty (lib.parse p).scheme ≡ true = rw no_scheme refl in
    let host : is_empty (lib.parse p).netloc ≡ true = rw no_host refl in
    let some_text = name_not_empty p h in rw (strip_name p h) (ground arith)
