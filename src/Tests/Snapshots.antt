-- ===== src/Tests/Snapshots.antt =====
-- Snapshots of a device that is read through a small adb program.
use tv_safety_cleaner.Prelude.{
  String, ◌≡◌, refl, true, none, some, List, [], ◌∷◌, String_discrete, ℕ_discrete, split_lines,
  contains, string_eq, if◌then◌else◌,
}
use tv_safety_cleaner.Prelude.Dict.{Dict, lookup}
use tv_safety_cleaner.Prelude.Json.{Json, str, obj, object}
use tv_safety_cleaner.Exec.{ok}
use tv_safety_cleaner.Observer.ReadOnlyAdb.{Runner}
use tv_safety_cleaner.Observer.ReadOnlyAdb.Reads.{recorded, AllRead}
use tv_safety_cleaner.Observer.Collector.{SnapshotPayload, collect_snapshot_payload}
use tv_safety_cleaner.Observer.Collector.Reads.{collect_snapshot_payload-AllRead}
use tv_safety_cleaner.Observer.Snapshot.{
  file, Directory, FileLib, json_files, file_at, split_line, check_line, check_lines, load,
  load_all, verify_snapshot,
}
use tv_safety_cleaner.Observer.Snapshot.Writing.{Moment, create_snapshot}
use tv_safety_cleaner.Observer.Snapshot.Verified.{Verified, verify_snapshot-Verified}
use tv_safety_cleaner.Observer.Snapshot.Created.{AddedOrSame, create_snapshot-Added}

abbrev manifest_entries : Dict Json
manifest_entries = ("schema_version", str "1.0") ∷ []

-- Every text is the same JSON object, and has the same digest.
abbrev plain_files : FileLib
plain_files = record {
  digest = λ _. "d";
  dumps = λ _. "{}";
  loads = λ _. ok (obj (object manifest_entries));
}

abbrev files_of : List String → Directory → Directory
files_of [] rest = rest
files_of (name ∷ names) rest = (name, file "{}") ∷ files_of names rest

abbrev a_snapshot : Directory
a_snapshot = files_of json_files (
    (
      "checksums.sha256",
      file
          "d  manifest.json\nd  device.json\nd  firmware.json\nd  packages.json\nd  disabled-packages.json\nd  permissions.json\nd  components.json\nd  launcher.json\nd  settings.json\nd  processes.json\nd  memory.json\nd  storage.json\nd  network-summary.json\nd  restore-plan.json\nd  privacy-report.json\n",
    )
    ∷ [])

a_snapshot_verified : verify_snapshot plain_files a_snapshot ≡ ok manifest_entries
unfolding verify_snapshot check_lines check_line load_all load file_at lookup split_lines split_line
    String_discrete ℕ_discrete
a_snapshot_verified = refl

verify_snapshot-Verified_example : Verified plain_files a_snapshot manifest_entries
verify_snapshot-Verified_example =
    verify_snapshot-Verified plain_files a_snapshot manifest_entries a_snapshot_verified

abbrev a_payload : SnapshotPayload
a_payload = record {
  model = "AFTSSS";
  platform = "amazon-fire-os";
  firmware = "7.7";
  fingerprint = "Amazon/sheldon";
  security_patch = "2024-01-01";
  serial = "tv";
  packages = [];
  disabled_packages = [];
  launcher = "unknown";
  settings = [];
  processes = [];
  package_summary = "";
  memory_summary = "";
  storage_summary = "";
  network_summary = "";
}

abbrev noon : Moment
noon = record { timestamp = "20240101T120000+0000"; utc = "12:00"; local = "12:00" }

create_snapshot-Added_example :
    AddedOrSame plain_files "tv" "20240101T120000+0000" []
      (create_snapshot plain_files noon "tv" a_payload [])
create_snapshot-Added_example = create_snapshot-Added plain_files noon "tv" a_payload []

-- It lists one connected device and prints nothing else.
abbrev a_runner : Runner (Unit {0})
a_runner argv s =
    let printed = if contains "devices" argv then "List of devices attached\ntv device\n" else "" in
    (ok (some (record { succeeded = true; stdout = printed; stderr = "" })), s)

collect_snapshot_payload-AllRead_example :
    AllRead "adb"
      (collect_snapshot_payload
        (recorded a_runner)
        "adb"
        none
        (record { outside = tt; commands = [] })).1.commands
collect_snapshot_payload-AllRead_example =
    collect_snapshot_payload-AllRead a_runner "adb" none (record { outside = tt; commands = [] }) tt
