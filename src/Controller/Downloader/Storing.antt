-- ===== src/Controller/Downloader/Storing.antt =====
-- `download` of tv_controller/apk_manager.py, from the address to the archive and its metadata, and
-- `version_from_download_data`.
use Prim.Native.Char.{code}
use tv_safety_cleaner.Prelude.{
  ℕ, ◌+◌, ◌*◌, ◌/◌, ◌<>◌, String, Bool, true, false, Option, none, some, List, [], ◌∷◌, not, ◌&&◌,
  ◌||◌, ◌==◌, nat_eq, string_eq, if◌then◌else◌, is_empty, ltb, show, is_digit, codes, lower,
  starts_with, same_codes,
}
use tv_safety_cleaner.Prelude.Dict.{Dict, lookup, insert}
use tv_safety_cleaner.Prelude.Matching.{or_else, span}
use tv_safety_cleaner.Prelude.Json.{object, Json, num, str, obj}
use tv_safety_cleaner.Exec.{
  Exec, Result, ok, err, Error, refusal, message, pure, raise, lift, raise_if, catch, ◌>>=◌, ◌>>◌,
}
use tv_safety_cleaner.Controller.Names.{UrlLib, parse_package_input, safe_apk_filename}
use tv_safety_cleaner.Controller.Downloader.{
  File, bytes, document, Net, Downloads, max_apk_bytes, without_escapes, text_of, or_text, within,
  decimal, on_net, report, poll,
}

-- The folder without a file of this name: `path.unlink(missing_ok=True)`.
unfoldable pub remove : String → Dict File → Dict File
remove name [] = []
remove name ((other, f) ∷ files) =
    let rest = remove name files in if other == name then rest else (other, f) ∷ rest

abbrev pub part_name : String → String
part_name name = name <> ".part"

abbrev pub metadata_name : String → String
metadata_name name = name <> ".json"

abbrev pub has_file : String → Dict File → Bool
has_file name files = elim (lookup name files) [ none ↦ false | some _ ↦ true ]

abbrev downloading : ℕ → ℕ → Dict Json
downloading received total =
    ("stage", str "downloading")
    ∷ ("status", str "Downloading APK")
    ∷ ("bytes_done", num received)
    ∷ ("bytes_total", num total)
    ∷ ("progress", num (if total == 0 then 17 else within 0 99 (17 + received * 82 / total)))
    ∷ []

abbrev pub failure : Error → Dict Json
failure e =
    ("stage", str "failed")
    ∷ ("status", str "Failed")
    ∷ ("error", str (message e))
    ∷ ("progress", num 100)
    ∷ []

-- The `except` block's removals: of the part, and of the archive unless its metadata is there.
abbrev pub cleaned : String → Dict File → Dict File
cleaned name files =
    let rest = remove (part_name name) files in
    if has_file (metadata_name name) rest then rest else remove name rest

abbrev version_keys : List String
version_keys =
    "versionCode" ∷ "version_code" ∷ "versioncode" ∷ "appVersionCode" ∷ "apk_version_code" ∷ []

abbrev number_of : Option Json → Option ℕ
number_of (some (num n)) = some n
number_of (some (str s)) =
    let (digits, rest) = span is_digit s in
    if is_empty digits || not (is_empty rest) then none else some (decimal 0 digits)
number_of _ = none

abbrev keyed_version : Dict Json → List String → Option (ℕ × String)
keyed_version answer [] = none
keyed_version answer (key ∷ keys) =
    let later = keyed_version answer keys in
    elim (number_of (lookup key answer)) [
      | some n ↦ some (n, "downloader JSON field " <> key)
      | none ↦ later
    ]

-- What follows the digits: a dash, the suffix, or nothing.
abbrev ends_number : String → Bool
ends_number rest =
    is_empty rest
    || starts_with (codes rest) (codes "-")
    || same_codes (lower (codes rest)) (codes ".apk")

abbrev numbered : String × String → Option ℕ
numbered (digits, rest) =
    if is_empty digits || not (ends_number rest) then none else some (decimal 0 digits)

-- `re.search(r"-(\d+)(?:-|\.apk$|$)", candidate, re.IGNORECASE)`
unfoldable pub number_in_name : String → Option ℕ
unfolding starts_with lower
number_in_name String.[] = none
number_in_name (String.◌∷◌ c s) =
    let later = number_in_name s in
    or_else (if code c == b'-' then numbered (span is_digit s) else none) later

abbrev named_version : Option ℕ → ℕ × String
named_version none = (0, "unknown")
named_version (some n) = (n, "downloader filename")

-- `version_from_download_data`, with the name of the file.
unfoldable pub version_from_download_data : Dict Json → String → ℕ × String
unfolding lookup number_in_name
version_from_download_data answer name = elim (keyed_version answer version_keys) [
  | some found ↦ found
  | none ↦ named_version (number_in_name name)
]

module _ {W : Type 0} where
  abbrev pub with_files : (Dict File → Dict File) → Exec (Downloads W) (Unit {0})
  with_files f s = (ok tt, record s { files = f s.files })

  abbrev broken_off : Option Error → Exec (Downloads W) (Unit {0})
  broken_off none = pure tt
  broken_off (some e) = raise e

  -- The loop over the chunks, with the number of bytes that have been received.
  unfoldable pub receive : String → String → ℕ → ℕ → List ℕ → Exec (Downloads W) ℕ
  unfolding insert report
  receive task name total received [] = pure received
  receive task name total received (chunk ∷ chunks) = do
    raise_if (ltb max_apk_bytes (received + chunk))
        (refusal "APK exceeds the 500 MiB download limit")
    with_files (insert (part_name name) (bytes (received + chunk)))
    report task (downloading (received + chunk) total)
    receive task name total (received + chunk) chunks

  unfoldable pub clean_up : String → String → Error → Exec (Downloads W) String
  unfolding report remove lookup
  clean_up task name e = with_files (cleaned name) >> (report task (failure e) >> raise e)

module _ {W : Type 0} (net : Net W) (lib : UrlLib) where
  -- `_validated_download_url`
  unfoldable pub validated_download_url : String → Result String
  unfolding without_escapes
  validated_download_url value =
      let normalized = without_escapes value in
      let parsed = net.parse_url normalized in
      if parsed.scheme == "https" && parsed.hostname == "online-apk-downloader.com"
      then ok normalized
      else err (refusal "Downloader returned an unapproved download URL")

  -- The `try` block from the response on, into the file `name`.
  unfoldable pub store : String → String → String → String → Dict Json → Exec (Downloads W) String
  unfolding receive on_net report insert version_from_download_data
  store task p name url answer = do
    response ← on_net (net.open_url url)
    raise_if (ltb max_apk_bytes response.total) (refusal "APK exceeds the 500 MiB download limit")
    with_files (insert (part_name name) (bytes 0))
    length ← receive task name response.total 0 response.chunks
    broken_off response.broken
    with_files (λ files. insert name (bytes length) (remove (part_name name) files))
    summary ← on_net (net.inspect length)
    now ← (λ s. (ok s.now, s))
    let version = (version_from_download_data answer name).0
    let source = (version_from_download_data answer name).1
    with_files (
        insert (metadata_name name) (
          document (
            ("package", str p)
            ∷ ("file", str name)
            ∷ ("size", num length)
            ∷ ("downloadUrl", str url)
            ∷ ("downloaderResponse", obj (object answer))
            ∷ ("versionCode", num version)
            ∷ ("versionSource", str source)
            ∷ ("signatureSummary", str summary)
            ∷ ("created_at", num now)
            ∷ [])))
    report task (
        ("stage", str "done")
        ∷ ("status", str "Downloaded")
        ∷ ("file", str name)
        ∷ ("size", num length)
        ∷ ("versionCode", num version)
        ∷ ("versionSource", str source)
        ∷ ("progress", num 100)
        ∷ [])
    pure name

  -- The name of the file, from the address or, where that has none, from the package and the time.
  abbrev pub file_name : String → ℕ → String → Result String
  file_name p now url =
      safe_apk_filename lib (or_text (net.parse_url url).name (p <> "-" <> show now <> ".apk"))

  -- The `try` block up to the file's name.
  unfoldable pub locate :
      String → String → String → Exec (Downloads W) (String × String × Dict Json)
  unfolding poll validated_download_url lookup safe_apk_filename
  locate endpoint p task = do
    answer ← poll net endpoint p task
    url ← lift (validated_download_url (text_of net.show_json (lookup "downloadUrl" answer)))
    name ← (λ s. (file_name p s.now url, s))
    pure (name, url, answer)

  -- `download`, for a task that has been made.
  unfoldable pub download : String → String → String → Exec (Downloads W) String
  unfolding locate store clean_up
  download endpoint text task = do
    p ← lift (parse_package_input lib text)
    (name, url, answer) ← catch (locate endpoint p task) (λ e. report task (failure e) >> raise e)
    catch (store task p name url answer) (clean_up task name)
