-- ===== src/Controller/AdbClient.antt =====
-- `AdbClient` of tv_controller/apk_manager.py, for a host that has been validated. The adb program and
-- the network are parameters: a call gives what the process printed, or nothing when it timed out.
pub mod Wire
pub mod Reading
pub mod Commands
use Prim.Native.Char.{code}
use tv_safety_cleaner.Prelude.{
  ℕ, ◌+◌, ◌-◌, ◌*◌, ◌<>◌, String, Bool, true, false, Option, none, some, List, [], ◌∷◌, map, not,
  ◌&&◌, ◌||◌, ◌==◌, nat_eq, string_eq, if◌then◌else◌, any, contains, select, codes, lower,
  has_substring, starts_with, same_codes, strip, is_empty, is_digit, is_space, is_word, split_lines,
  sort, le_text,
}
use tv_safety_cleaner.Prelude.Matching.{or_else, after}
use tv_safety_cleaner.Exec.{
  Exec, Result, ok, err, refusal, pure, raise, lift, raise_if, ◌>>=◌, ◌>>◌,
}
use tv_safety_cleaner.Controller.Device.{DeviceIdentity, PackageState, absent}
use tv_safety_cleaner.Controller.Names.{UrlLib, parse_package_input, is_package_id}
use tv_safety_cleaner.Controller.Planner.{is_never_touch}
use tv_safety_cleaner.Controller.Jobs.{Adb}

-- `subprocess.CompletedProcess`, with `returncode == 0`.
pub record Completed : Type 0 where
  pub succeeded : Bool
  pub stdout : String
  pub stderr : String

pub record Shell (W : Type 0) : Type 0 where
  -- The adb program with these arguments; nothing if it ran out of its time.
  pub call : List String → Exec W (Option Completed)
  -- Whether a socket to the host could be opened.
  pub reach : String → Exec W Bool

-- `"\n".join(part.strip() for part in (stdout, stderr) if part.strip())`
abbrev pub output_of : Completed → String
output_of r =
    if is_empty (strip r.stdout)
    then strip r.stderr
    else if is_empty (strip r.stderr)
    then strip r.stdout
    else strip r.stdout <> "\n" <> strip r.stderr

abbrev mentions : String → List ℕ → Bool
mentions marker normalized = has_substring (codes marker) normalized

-- `_friendly_error`
unfoldable pub friendly_error : String → String → String
unfolding lower has_substring
friendly_error host output =
    let normalized = lower (codes output) in
    if mentions "unauthorized" normalized
    then "TV rejected ADB authorization. Confirm the RSA prompt on the TV."
    else if mentions "offline" normalized
    then "TV is visible but ADB is offline. Re-enable ADB on the TV and retry."
    else if mentions "cannot connect" normalized || mentions "failed to connect" normalized
    then "TV is not accepting ADB at " <> host <> ". Check its address and ADB setting."
    else if mentions "daemon" normalized || mentions "adb server" normalized
    then "Controller could not start its local ADB service. Redeploy with tv.sh."
    else "ADB could not complete the request. Check the TV connection and authorization."

-- The connection failed, by the process's status or by what it printed.
unfoldable pub connect_failed : Completed → Bool
unfolding lower has_substring
connect_failed r =
    let combined = lower (codes (r.stdout <> "\n" <> r.stderr)) in
    not r.succeeded
    || any (λ marker. mentions marker combined)
        ("failed" ∷ "cannot connect" ∷ "unable to connect" ∷ [])

-- `(result.stderr or result.stdout).strip()`
abbrev detail_of : Completed → String
detail_of r = if is_empty r.stderr then strip r.stdout else strip r.stderr

-- The digits at the start of a text, as a number, after the number `n`.
abbrev number_from : ℕ → String → ℕ
number_from n String.[] = n
number_from n (String.◌∷◌ c s) =
    let rest = number_from (n * 10 + (code c - b'0')) s in if is_digit (code c) then rest else n

abbrev digits_at : String → Option ℕ
digits_at String.[] = none
digits_at (String.◌∷◌ c s) =
    if is_digit (code c) then some (number_from 0 (String.◌∷◌ c s)) else none

abbrev word_from : String → String
word_from String.[] = ""
word_from (String.◌∷◌ c s) =
    let rest = word_from s in if is_space (code c) then "" else String.◌∷◌ c rest

-- ([^\s]+)
abbrev word_at : String → Option String
word_at s = if is_empty (word_from s) then none else some (word_from s)

abbrev read_after : {A : Type 0} → (String → Option A) → Option String → Option A
read_after read none = none
read_after read (some s) = read s

-- `re.search(r"\bmarker=…")`: the first place at a word boundary where the value can be read;
-- `inside` tells whether a word character comes before.
unfoldable pub search_field : {A : Type 0} → String → (String → Option A) → Bool → String → Option A
search_field marker read inside String.[] = none
search_field marker read inside (String.◌∷◌ c s) =
    let later = search_field marker read (is_word (code c)) s in
    if inside
    then later
    else or_else (read_after read (after (codes marker) (String.◌∷◌ c s))) later

abbrev or_unknown : Option String → String
or_unknown none = "unknown"
or_unknown (some name) = name

unfoldable pub version_code_in : String → Option ℕ
unfolding search_field
version_code_in output = search_field "versionCode=" digits_at false output

unfoldable pub version_name_in : String → String
unfolding search_field is_space
version_name_in output = or_unknown (search_field "versionName=" word_at false output)

-- `line.removeprefix("package:").strip()`
abbrev package_in : String → String
package_in line = elim (after (codes "package:") line) [ none ↦ strip line | some s ↦ strip s ]

-- f"package:{package}" in output.splitlines()
abbrev pub shows : String → String → Bool
shows p output = contains ("package:" <> p) (split_lines output)

module _ {W : Type 0} (shell : Shell W) (lib : UrlLib) (host : String) where
  abbrev pub conclude_run : Option Completed → Exec W String
  conclude_run none = raise (
      refusal
        ("ADB operation timed out for " <> host <> ". Verify the TV connection and authorization."))
  conclude_run (some r) =
      if r.succeeded
      then pure (output_of r)
      else raise (refusal (friendly_error host (output_of r)))

  -- `_run`
  unfoldable pub run : List String → Exec W String
  unfolding friendly_error
  run args = shell.call ("-s" ∷ host ∷ args) >>= conclude_run

  abbrev pub conclude_connect : Option Completed → Exec W (Unit {0})
  conclude_connect none = raise (
      refusal
        ("ADB connection timed out for " <> host <> ". Enable ADB and authorize this Controller."))
  conclude_connect (some r) =
      if connect_failed r then raise (refusal (friendly_error host (detail_of r))) else pure tt

  unfoldable pub connect : Exec W (Unit {0})
  unfolding friendly_error connect_failed
  connect = shell.call ("connect" ∷ host ∷ []) >>= conclude_connect

  unfoldable pub preflight : Exec W (Unit {0})
  unfolding connect run
  preflight = do
    reached ← shell.reach host
    raise_if (not reached) (
        refusal
          ("TV is not reachable at " <> host <> ". Turn it on, enable ADB, and check the address."))
    connect
    state ← run ("get-state" ∷ [])
    raise_if (not (same_codes (lower (codes (strip state))) (codes "device")))
        (refusal "TV ADB is not ready. Authorize this Controller on the TV.")

  -- `_listed`
  unfoldable pub listed : String → String → Exec W Bool
  unfolding run
  listed p flag = do
    output ← run ("shell" ∷ "pm" ∷ "list" ∷ "packages" ∷ flag ∷ p ∷ [])
    pure (shows p output)

  unfoldable pub property : String → Exec W String
  unfolding run
  property key = do output ← run ("shell" ∷ "getprop" ∷ key ∷ []); pure (strip output)

  unfoldable pub device_identity : Exec W DeviceIdentity
  unfolding property
  device_identity = do
    model ← property "ro.product.model"
    platform ← property "ro.build.characteristics"
    firmware ← property "ro.build.version.incremental"
    fingerprint ← property "ro.build.fingerprint"
    raise_if (is_empty fingerprint) (refusal "TV build fingerprint is unavailable")
    pure (record {
      model = model;
      platform = platform;
      firmware = firmware;
      fingerprint = fingerprint;
    })

  -- The rest of `package_state`, where a version was found.
  abbrev pub present_state : String → String → ℕ → Exec W PackageState
  present_state p output version = do
    third_party ← listed p "-3"
    disabled ← listed p "-d"
    pure (record {
      installed = true;
      enabled = not disabled;
      third_party = third_party;
      version_code = version;
      version_name = version_name_in output;
    })

  abbrev pub state_in : String → String → Option ℕ → Exec W PackageState
  state_in p output none = pure absent
  state_in p output (some version) = present_state p output version

  unfoldable pub package_state : String → Exec W PackageState
  unfolding run listed version_code_in version_name_in
  package_state text = do
    p ← lift (parse_package_input lib text)
    output ← run ("shell" ∷ "dumpsys" ∷ "package" ∷ p ∷ [])
    state_in p output (version_code_in output)

  unfoldable pub installed_version : String → Exec W ℕ
  unfolding package_state
  installed_version p = do
    state ← package_state p
    raise_if (not state.installed) (refusal ("Installed version is unavailable for " <> p))
    pure state.version_code

  unfoldable pub third_party_packages : Exec W (List String)
  unfolding run
  third_party_packages = do
    output ← run ("shell" ∷ "pm" ∷ "list" ∷ "packages" ∷ "-3" ∷ [])
    pure (sort le_text (select is_package_id (map package_in (split_lines output))))

  unfoldable pub set_enabled : String → Bool → Exec W String
  unfolding run package_state
  set_enabled text enabled = do
    p ← lift (parse_package_input lib text)
    raise_if (is_never_touch p) (refusal "Package controls target a never-touch package")
    state ← package_state p
    raise_if (not state.installed || not state.third_party)
        (refusal "Only an installed third-party package can be enabled or disabled")
    run ("shell" ∷ "pm" ∷ (if enabled then "enable" else "disable-user") ∷ "--user" ∷ "0" ∷ p ∷ [])

  unfoldable pub install : String → String → Exec W String
  unfolding run connect listed
  install apk text = do
    p ← lift (parse_package_input lib text)
    raise_if (is_never_touch p) (refusal "Install/update targets a never-touch package")
    connect
    system ← listed p "-s"
    raise_if system (refusal "Install/update of a system package is prohibited")
    run ("install" ∷ "-r" ∷ apk ∷ [])

  unfoldable pub uninstall : String → Exec W String
  unfolding run connect listed
  uninstall text = do
    p ← lift (parse_package_input lib text)
    raise_if (is_never_touch p) (refusal "Uninstall targets a never-touch package")
    connect
    third_party ← listed p "-3"
    raise_if (not third_party) (refusal "Only verified third-party packages can be uninstalled")
    run ("uninstall" ∷ p ∷ [])

  -- The client as the job manager sees it.
  unfoldable pub adb_client : Adb W
  unfolding preflight device_identity package_state installed_version third_party_packages
      set_enabled install uninstall
  adb_client = record {
    preflight = preflight;
    device_identity = device_identity;
    package_state = package_state;
    third_party_packages = third_party_packages;
    set_enabled = set_enabled;
    install = install;
    uninstall = uninstall;
    installed_version = installed_version;
  }
