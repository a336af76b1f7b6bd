-- ===== src/Observer/Collector.antt =====
-- tv_observer/collector.py: the inventory that a snapshot is made of, read from one connected device.
-- A set of names is a list without repetition.
pub mod Reads
use Prim.Native.Char.{code}
use tv_safety_cleaner.Prelude.{
  ℕ, ◌<>◌, String, ◌≡◌, Bool, true, false, Option, none, some, List, [], ◌∷◌, ◌++◌, map, not, ◌&&◌,
  ◌||◌, ◌==◌, nat_eq, string_eq, if◌then◌else◌, is_empty, codes, starts_with, ends_with,
  split_lines, strip, lstrip, contains, select, sort, le_text, is_word,
}
use tv_safety_cleaner.Prelude.Matching.{or_else, after, span}
use tv_safety_cleaner.Prelude.Dict.{Dict, lookup, insert, get_or}
use tv_safety_cleaner.Exec.{
  Exec, Result, ok, err, adb_error, pure, raise, lift, raise_if, ◌>>=◌, ◌>>◌,
}
use tv_safety_cleaner.Observer.Platform.{
  Platform, fire_os, google_tv, android_tv, vega_os, unknown, detect_platform, parse_properties,
}
use tv_safety_cleaner.Observer.Devices.{
  Device, DeviceState, connected, disconnected, unauthorized, offline, timeout, malformed,
}
use tv_safety_cleaner.Observer.ReadOnlyAdb.{
  Runner, Client, new_client, devices, properties, packages, activity_summary, package_summary,
  memory_summary, storage_summary, process_summary, network_summary, setting,
}

-- [A-Za-z0-9._]
abbrev is_name_code : ℕ → Bool
is_name_code c = is_word c || c == b'.'

abbrev whole_name : String × String → Option String
whole_name (name, rest) = if is_empty name || not (is_empty rest) then none else some name

-- PACKAGE_LINE
unfoldable pub package_line : String → Option String
package_line line = elim (after (codes "package:") line) [
  | none ↦ none
  | some s ↦ whole_name (span is_name_code s)
]

abbrev add_name : Option String → List String → List String
add_name none names = names
add_name (some name) names = if contains name names then names else name ∷ names

abbrev names_in : List String → List String
names_in [] = []
names_in (line ∷ lines) = add_name (package_line (strip line)) (names_in lines)

-- `_package_names`
unfoldable pub package_names : String → List String
unfolding package_line split_lines strip sort
package_names raw = sort le_text (names_in (split_lines raw))

pub record PackageDetails : Type 0 where
  pub version : String
  pub code_path : String
  pub requested_permissions : List String

abbrev no_details : PackageDetails
no_details = record { version = "unknown"; code_path = "unknown"; requested_permissions = [] }

abbrev bracketed : String × String → Option String
bracketed (name, String.[]) = none
bracketed (name, String.◌∷◌ c s) = if is_empty name || not (code c == b']') then none else some name

-- PACKAGE_HEADER
unfoldable pub package_header : String → Option String
unfolding lstrip
package_header line = elim (after (codes "Package [") (lstrip line)) [
  | none ↦ none
  | some s ↦ bracketed (span is_name_code s)
]

abbrev permission_of : String × String → Option String
permission_of (name, String.[]) = if is_empty name then none else some name
permission_of (name, String.◌∷◌ c s) =
    if is_empty name || not (code c == b':') then none else some name

-- PERMISSION_LINE
unfoldable pub permission_line : String → Option String
permission_line line = permission_of (span is_name_code line)

-- What the loop over the summary knows: the details so far, the package that it is in, and whether it
-- is among that package's requested permissions.
pub record Reading : Type 0 where
  pub details : Dict PackageDetails
  pub current : Option String
  pub in_requested : Bool

abbrev details_of : String → Dict PackageDetails → PackageDetails
details_of name details = get_or no_details name details

abbrev change : (PackageDetails → PackageDetails) → String → Bool → Reading → Reading
change f name requested s = record s {
  details = insert name (f (details_of name s.details)) s.details;
  in_requested = requested;
}

abbrev or_unknown : String → String
or_unknown value = if is_empty value then "unknown" else value

abbrev add_permission : Option String → PackageDetails → PackageDetails
add_permission none p = p
add_permission (some name) p = record p {
  requested_permissions = p.requested_permissions ++ (name ∷ []);
}

-- A line of the package `name` that is no header.
unfoldable pub read_line : String → String → Reading → Reading
unfolding insert get_or ends_with permission_line
read_line name stripped s = elim (after (codes "versionName=") stripped) [
  | some value ↦ change (λ p. record p { version = or_unknown value }) name false s
  | none ↦ elim (after (codes "codePath=") stripped) [
    | some value ↦ change (λ p. record p { code_path = or_unknown value }) name false s
    | none ↦
        if stripped == "requested permissions:"
        then record s { in_requested = true }
        else if ends_with (codes stripped) (codes "permissions:") || is_empty stripped
        then record s { in_requested = false }
        else if s.in_requested
        then change (add_permission (permission_line stripped)) name true s
        else s
  ]
]

-- `details.setdefault(name, …)`
abbrev entered : String → Reading → Reading
entered name s = record s {
  details = insert name (details_of name s.details) s.details;
  current = some name;
  in_requested = false;
}

unfoldable pub read_lines : List String → Reading → Reading
unfolding read_line package_header strip
read_lines [] s = s
read_lines (line ∷ lines) s = elim (package_header line) [
  | some name ↦ read_lines lines (entered name s)
  | none ↦ elim s.current [
    | none ↦ read_lines lines s
    | some name ↦ read_lines lines (read_line name (strip line) s)
  ]
]

-- `_package_details`
unfoldable pub package_details : String → Dict PackageDetails
unfolding read_lines split_lines
package_details raw =
    (read_lines (split_lines raw)
      (record { details = []; current = none; in_requested = false })).details

pub record Package : Type 0 where
  pub name : String
  pub version : String
  pub install_level : String
  pub enabled : Bool
  pub requested_permissions : List String

abbrev pub install_level : List String → List String → String → String → String
install_level user system code_path name =
    if contains name user
    then "user"
    else if contains name system && starts_with (codes code_path) (codes "/data/")
    then "updated-system"
    else if contains name system
    then "system"
    else "unknown"

-- `_package_inventory`
unfoldable pub package_inventory :
    List String → List String → List String → List String → String → List Package
unfolding package_details get_or starts_with
package_inventory names user system disabled summary =
    let details = package_details summary in
    map
      (λ name.
        let entry = details_of name details in
        record {
          name = name;
          version = entry.version;
          install_level = install_level user system entry.code_path name;
          enabled = not (contains name disabled);
          requested_permissions = entry.requested_permissions;
        })
      names

abbrev slashed : String × String → Option String
slashed (name, String.[]) = none
slashed (name, String.◌∷◌ c s) = if is_empty name || not (code c == b'/') then none else some name

-- The nearest ` name/` in the rest of the line.
abbrev activity_in : String → Option String
activity_in String.[] = none
activity_in (String.◌∷◌ c s) =
    let later = activity_in s in
    or_else (if code c == b' ' then slashed (span is_name_code s) else none)
      (if code c == 10 then none else later)

abbrev marked_activity : Option String → Option String
marked_activity none = none
marked_activity (some s) = activity_in s

-- FOREGROUND.search
unfoldable pub foreground_in : String → Option String
foreground_in String.[] = none
foreground_in (String.◌∷◌ c s) =
    let later = foreground_in s in
    or_else (marked_activity (after (codes "mResumedActivity") (String.◌∷◌ c s)))
      (or_else (marked_activity (after (codes "topResumedActivity") (String.◌∷◌ c s))) later)

abbrev platform_value : Platform → String
platform_value fire_os = "amazon-fire-os"
platform_value google_tv = "google-tv"
platform_value android_tv = "android-tv"
platform_value vega_os = "amazon-vega-os"
platform_value unknown = "unknown"

abbrev state_value : DeviceState → String
state_value connected = "connected"
state_value disconnected = "disconnected"
state_value unauthorized = "unauthorized"
state_value offline = "offline"
state_value timeout = "timeout"
state_value malformed = "malformed"

abbrev pub is_connected : Device → Bool
is_connected d = elim d.state [ connected ↦ true | _ ↦ false ]

abbrev joined_states : List Device → String
joined_states [] = ""
joined_states (d ∷ []) = d.serial <> ":" <> state_value d.state
joined_states (d ∷ ds) = d.serial <> ":" <> state_value d.state <> ", " <> joined_states ds

abbrev states_or_none : List Device → String
states_or_none [] = "none"
states_or_none (d ∷ ds) = joined_states (d ∷ ds)

-- The device that is read: the only connected one, or the one that is asked for.
abbrev only_connected : List Device → List Device → Result String
only_connected (d ∷ []) all = ok d.serial
only_connected _ all =
    err (adb_error ("select exactly one connected device; found " <> states_or_none all))

abbrev asked_for : String → List Device → Result String
asked_for serial [] = err (adb_error "selected device is not connected: disconnected")
asked_for serial (d ∷ _) =
    if is_connected d
    then ok serial
    else err (adb_error ("selected device is not connected: " <> state_value d.state))

unfoldable pub choose_device : Option String → List Device → Result String
choose_device none found = only_connected (select is_connected found) found
choose_device (some serial) found = asked_for serial (select (λ d. d.serial == serial) found)

pub record SnapshotPayload : Type 0 where
  pub model : String
  pub platform : String
  pub firmware : String
  pub fingerprint : String
  pub security_patch : String
  pub serial : String
  pub packages : List Package
  pub disabled_packages : List String
  pub launcher : String
  pub settings : Dict String
  pub processes : List String
  pub package_summary : String
  pub memory_summary : String
  pub storage_summary : String
  pub network_summary : String

abbrev or_unknown_activity : Option String → String
or_unknown_activity none = "unknown"
or_unknown_activity (some name) = name

module _ {W : Type 0} (runner : Runner W) (executable : String) where
  unfoldable pub read_settings : Client → Exec W (Dict String)
  unfolding strip
  read_settings client = do
    adb ← setting runner client "global" "adb_enabled"
    awake ← setting runner client "global" "stay_on_while_plugged_in"
    screen ← setting runner client "system" "screen_off_timeout"
    pure (
        ("adb_enabled", strip adb)
        ∷ ("stay_on_while_plugged_in", strip awake)
        ∷ ("screen_off_timeout", strip screen)
        ∷ [])

  unfoldable pub read_inventory : String → Client → Exec W SnapshotPayload
  unfolding read_settings package_names package_inventory foreground_in get_or parse_properties
      detect_platform
  read_inventory serial client = do
    properties_raw ← properties runner client
    names_raw ← packages runner client false false false
    disabled_raw ← packages runner client true false false
    user_raw ← packages runner client false true false
    system_raw ← packages runner client false false true
    summary ← package_summary runner client
    activity ← activity_summary runner client
    settings ← read_settings client
    processes ← process_summary runner client
    memory ← memory_summary runner client
    storage ← storage_summary runner client
    network ← network_summary runner client
    let found = parse_properties properties_raw
    let names = package_names names_raw
    let launcher = or_unknown_activity (foreground_in activity)
    let detection =
        detect_platform (record { properties = found; packages = names; launcher = launcher })
    pure (record {
      model = get_or "unknown" "ro.product.model" found;
      platform = platform_value detection.platform;
      firmware = get_or "unknown" "ro.build.version.incremental" found;
      fingerprint = get_or "unknown" "ro.build.fingerprint" found;
      security_patch = get_or "unknown" "ro.build.version.security_patch" found;
      serial = serial;
      packages =
          package_inventory names (package_names user_raw) (package_names system_raw)
            (package_names disabled_raw) summary;
      disabled_packages = package_names disabled_raw;
      launcher = launcher;
      settings = settings;
      processes = split_lines processes;
      package_summary = summary;
      memory_summary = memory;
      storage_summary = storage;
      network_summary = network;
    })

  unfoldable pub collect_snapshot_payload : Option String → Exec W SnapshotPayload
  unfolding read_inventory choose_device new_client
  collect_snapshot_payload wanted = do
    discovery ← lift (new_client executable "")
    found ← devices runner discovery
    serial ← lift (choose_device wanted found)
    client ← lift (new_client executable serial)
    read_inventory serial client
