-- ===== src/Observer/Snapshot/Writing.antt =====
-- How a snapshot is written: `create_snapshot` and what it calls, and `list_snapshots`.
use tv_safety_cleaner.Prelude.{
  ◌<>◌, String, Bool, true, false, Option, none, some, List, [], ◌∷◌, ◌++◌, map, not, ◌&&◌, ◌||◌,
  ◌==◌, nat_eq, string_eq, if◌then◌else◌, is_empty, codes, all, select, sort, le_text, is_word,
  length, starts_with,
}
use tv_safety_cleaner.Prelude.Dict.{Dict, lookup, insert}
use tv_safety_cleaner.Prelude.Json.{Json, bool, num, str, arr, obj, array, object, no_items}
use tv_safety_cleaner.Exec.{Exec, Result, ok, err, chain}
use tv_safety_cleaner.Observer.Collector.{SnapshotPayload, Package}
use tv_safety_cleaner.Observer.Snapshot.{
  file, Directory, FileLib, invalid, checksum_name, file_at, verify_snapshot,
}

-- `"\n".join(lines) + "\n"`
abbrev with_line_ends : List String → String
with_line_ends [] = "\n"
with_line_ends (line ∷ []) = line <> "\n"
with_line_ends (line ∷ lines) = line <> "\n" <> with_line_ends lines

module _ (lib : FileLib) where
  -- `_json_write`, with the check that what was written can be read.
  unfoldable pub json_write : String → Json → Directory → Result Directory
  unfolding insert
  json_write name value dir =
      let text = lib.dumps value <> "\n" in
      chain (lib.loads text) λ _. ok (insert name (file text) dir)

  unfoldable pub write_all : Dict Json → Directory → Result Directory
  unfolding json_write
  write_all [] dir = ok dir
  write_all ((name, value) ∷ artifacts) dir =
      chain (json_write name value dir) (write_all artifacts)

  abbrev checksum_lines : Directory → List String → List String
  checksum_lines dir [] = []
  checksum_lines dir (name ∷ names) = elim (file_at name dir) [
    | none ↦ checksum_lines dir names
    | some text ↦ (lib.digest text <> "  " <> name) ∷ checksum_lines dir names
  ]

  -- `_write_checksums`
  unfoldable pub write_checksums : Directory → Directory
  unfolding insert sort file_at
  write_checksums dir =
      let names = select (λ name. not (name == checksum_name)) (map (λ e. e.0) dir) in
      insert checksum_name (file (with_line_ends (checksum_lines dir (sort le_text names)))) dir

abbrev texts : List String → Json
texts names = arr (array (map str names))

abbrev package_value : Package → Json
package_value p = obj (
    object (
      ("name", str p.name)
      ∷ ("version", str p.version)
      ∷ ("install_level", str p.install_level)
      ∷ ("scope", str "current-user")
      ∷ ("enabled", bool p.enabled)
      ∷ ("requested_permissions", texts p.requested_permissions)
      ∷ []))

abbrev permissions_of : List Package → Dict Json → Dict Json
permissions_of [] d = d
permissions_of (p ∷ packages) d =
    permissions_of packages (insert p.name (texts p.requested_permissions) d)

abbrev one : String → Json → Json
one key value = obj (object ((key, value) ∷ []))

-- The clock's reading at the start, in the three forms that it is written in.
pub record Moment : Type 0 where
  pub timestamp : String
  pub utc : String
  pub local : String

unfoldable pub manifest_of : Moment → SnapshotPayload → Json
manifest_of now payload = obj (
    object (
      ("schema_version", str "1.0")
      ∷ ("observer_version", str "0.1.0")
      ∷ ("created_utc", str now.utc)
      ∷ ("created_local", str now.local)
      ∷ ("model", str payload.model)
      ∷ ("platform", str payload.platform)
      ∷ ("firmware", str payload.firmware)
      ∷ ("fingerprint", str payload.fingerprint)
      ∷ ("security_patch", str payload.security_patch)
      ∷ ("package_count", num (length payload.packages))
      ∷ ("kind", str "inventory-snapshot")
      ∷ []))

unfoldable pub artifacts : Moment → SnapshotPayload → Dict Json
unfolding manifest_of insert
artifacts now payload =
    ("manifest.json", manifest_of now payload)
    ∷ (
      "device.json",
      obj (object (("model", str payload.model) ∷ ("serial", str payload.serial) ∷ [])),
    )
    ∷ (
      "firmware.json",
      obj (
          object (
            ("version", str payload.firmware)
            ∷ ("fingerprint", str payload.fingerprint)
            ∷ ("security_patch", str payload.security_patch)
            ∷ ("platform", str payload.platform)
            ∷ [])),
    )
    ∷ ("packages.json", arr (array (map package_value payload.packages)))
    ∷ ("disabled-packages.json", texts payload.disabled_packages)
    ∷ ("permissions.json", one "packages" (obj (object (permissions_of payload.packages []))))
    ∷ ("components.json", one "package_summary" (str payload.package_summary))
    ∷ ("launcher.json", one "package" (str payload.launcher))
    ∷ ("settings.json", obj (object (map (λ e. (e.0, str e.1)) payload.settings)))
    ∷ ("processes.json", texts payload.processes)
    ∷ ("memory.json", one "summary" (str payload.memory_summary))
    ∷ ("storage.json", one "summary" (str payload.storage_summary))
    ∷ (
      "network-summary.json",
      obj (
          object (
            ("summary", str payload.network_summary) ∷ ("credentials_collected", bool false) ∷ [])),
    )
    ∷ (
      "restore-plan.json",
      obj (
          object (
            ("scope", str "inventory-derived plan")
            ∷ ("automatic_restore", bool false)
            ∷ ("operations", arr no_items)
            ∷ [])),
    )
    ∷ (
      "privacy-report.json",
      one "excluded" (
          texts
            ("passwords" ∷ "tokens" ∷ "cookies" ∷ "wifi_credentials" ∷ "message_contents" ∷ [])),
    )
    ∷ []

abbrev recovery_plan : String
recovery_plan =
    "# Recovery plan\n\n"
    <> "This is an inventory snapshot and restore plan, not a firmware backup.\n"
    <> "APK archives are separate. Factory reset is a manual last resort.\n"
    <> "Full firmware imaging is unsupported.\n"

-- [A-Za-z0-9._-]
abbrev pub is_safe_device : String → Bool
is_safe_device name =
    not (is_empty name) && all (λ c. is_word c || c == b'.' || c == b'-') (codes name)

-- The root: for each device its snapshots, by their timestamps. What is no directory and what is a
-- symbolic link is left out of it. The names "." and "..", which a device may have, stand for
-- themselves here.
abbrev pub Root : Type 0
Root = Dict (Dict Directory)

abbrev or_no_snapshots : Option (Dict Directory) → Dict Directory
or_no_snapshots none = []
or_no_snapshots (some snapshots) = snapshots

abbrev pub snapshots_of : String → Root → Dict Directory
snapshots_of device root = or_no_snapshots (lookup device root)

abbrev is_hidden : String → Bool
is_hidden name = starts_with (codes name) (codes ".")

abbrev pub has_key : {A : Type 0} → String → Dict A → Bool
has_key key d = elim (lookup key d) [ none ↦ false | some _ ↦ true ]

module _ (lib : FileLib) where
  -- The directory that `create_snapshot` has filled and verified.
  unfoldable pub build_snapshot : Moment → SnapshotPayload → Result Directory
  unfolding write_all write_checksums verify_snapshot artifacts insert
  build_snapshot now payload = chain (write_all lib (artifacts now payload) []) λ written.
      let complete = write_checksums lib (insert "recovery-plan.md" (file recovery_plan) written) in
      chain (verify_snapshot lib complete) λ manifest. ok complete

  -- The device's folder is made first; the new directory appears whole or not at all.
  abbrev pub place : String → String → Result Directory → Exec Root String
  place timestamp device (err e) root = (err e, insert device (snapshots_of device root) root)
  place timestamp device (ok dir) root =
      let there = snapshots_of device root in
      if has_key timestamp there
      then (invalid "snapshot timestamp collision", insert device there root)
      else (ok timestamp, insert device (insert timestamp dir there) root)

  -- `create_snapshot`
  unfoldable pub create_snapshot : Moment → String → SnapshotPayload → Exec Root String
  unfolding build_snapshot lookup insert
  create_snapshot now device payload root =
      if not (is_safe_device device)
      then (invalid "unsafe device name", root)
      else place now.timestamp device (build_snapshot now payload) root

  -- The snapshots of one device that are not hidden and can be verified.
  unfoldable pub ready : Dict Directory → List String
  unfolding verify_snapshot starts_with
  ready [] = []
  ready ((name, dir) ∷ snapshots) =
      let rest = ready snapshots in
      if is_hidden name
      then rest
      else elim (verify_snapshot lib dir) [ err e ↦ rest | ok _ ↦ name ∷ rest ]

  abbrev under : String → List String → List (String × String)
  under device [] = []
  under device (name ∷ names) = (device, name) ∷ under device names

  unfoldable pub all_ready : Root → List (String × String)
  unfolding ready starts_with
  all_ready [] = []
  all_ready ((device, snapshots) ∷ root) =
      let rest = all_ready root in
      if is_hidden device then rest else under device (ready snapshots) ++ rest

  abbrev le_path : String × String → String × String → Bool
  le_path (d, n) (e, m) = if d == e then le_text n m else le_text d e

  -- `list_snapshots`
  unfoldable pub list_snapshots : Root → List (String × String)
  unfolding all_ready sort
  list_snapshots root = sort le_path (all_ready root)
