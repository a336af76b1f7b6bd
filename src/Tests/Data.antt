-- ===== src/Tests/Data.antt =====
-- The data of the tests: a television, a package on it and the rows of a journal about them.
use tv_safety_cleaner.Prelude.{String, Bool, true, false, none, some, List, [], ◌∷◌}
use tv_safety_cleaner.Exec.{ok}
use tv_safety_cleaner.Controller.Device.{DeviceIdentity, PackageState, absent}
use tv_safety_cleaner.Controller.Names.{UrlLib}
use tv_safety_cleaner.Controller.Journal.{
  Status, Action, Inverse, Row, Journal, NewOperation, new_row,
}
use tv_safety_cleaner.Controller.Tasks.{queued}
use tv_safety_cleaner.Controller.Jobs.{Adb, Apk, Manager, Host, Pending, Thread}

abbrev pub a_device : DeviceIdentity
a_device = record {
  model = "AFTSSS";
  platform = "amazon-fire-os";
  firmware = "Fire OS 7.7";
  fingerprint = "Amazon/sheldon";
}

abbrev pub a_package : String
a_package = "org.example.app"

abbrev pub a_task : String
a_task = "1700000000-0a1b2c3d"

abbrev pub state_with : Bool → PackageState
state_with enabled = record {
  installed = true;
  enabled = enabled;
  third_party = true;
  version_code = 2;
  version_name = "2.0";
}

abbrev pub disabling : NewOperation
disabling = record {
  package_id = a_package;
  action = Action.disable;
  before = state_with true;
  device = a_device;
  before_apk = "a-2.apk";
  after_apk = "";
  batch_id = "";
  parent_id = none;
  inverse_action = Inverse.enable;
}

abbrev pub reverting : NewOperation
reverting = record disabling {
  action = Action.rollback Action.disable;
  before = state_with false;
  parent_id = some 1;
  inverse_action = Inverse.nothing;
}

abbrev pub pending_row : Row
pending_row = new_row 1 "t" disabling

-- The package was disabled.
abbrev pub applied_row : Row
applied_row = record pending_row {
  status = Status.applied;
  after = some (state_with false);
  completed_at = some "t";
}

-- Its rollback, once it has been completed and once it has failed.
abbrev pub applied_rollback : Row
applied_rollback = record (new_row 2 "t" reverting) {
  status = Status.applied;
  after = some (state_with true);
  completed_at = some "t";
}

abbrev pub failed_rollback : Row
failed_rollback = record (new_row 2 "t" reverting) {
  status = Status.uncertain;
  error = "adb";
  completed_at = some "t";
}

abbrev pub one_pending : Journal
one_pending = record { rows = pending_row ∷ []; next_id = 2 }

abbrev pub one_applied : Journal
one_applied = record { rows = applied_row ∷ []; next_id = 2 }

abbrev pub rolled_back : Journal
rolled_back = record { rows = applied_rollback ∷ applied_row ∷ []; next_id = 3 }

abbrev pub locked : Journal
locked = record { rows = failed_rollback ∷ applied_row ∷ []; next_id = 3 }

-- An address parser for texts that are no addresses.
abbrev pub plain_lib : UrlLib
plain_lib = record { parse = λ _. record { scheme = ""; netloc = ""; ids = [] }; unquote = λ s. s }

-- A television with one package, whose state is all that the world holds.
abbrev pub tv_client : Adb PackageState
tv_client = record {
  preflight = λ s. (ok tt, s);
  device_identity = λ s. (ok a_device, s);
  package_state = λ _ s. (ok s, s);
  third_party_packages = λ s. (ok (a_package ∷ []), s);
  set_enabled = λ _ enabled s. (ok "", record s { enabled = enabled });
  install = λ _ _ s. (ok "Success", state_with true);
  uninstall = λ _ s. (ok "Success", absent);
  installed_version = λ _ s. (ok s.version_code, s);
}

abbrev pub tv_host : Host PackageState
tv_host = record {
  lib = plain_lib;
  client = λ _. tv_client;
  download = λ _ _ _ disk. (ok "a-2.apk", disk);
  available_version =
      λ _ _ _ disk. (ok (record { version = 2; source = "unknown"; download_url = "" }), disk);
  iso = λ _. "t";
}

abbrev pub archives : List Apk
archives =
    record { file = "a-2.apk"; package_id = a_package; version_code = 2 }
    ∷ record { file = "s-1.apk"; package_id = "com.android.settings"; version_code = 1 }
    ∷ []

abbrev pub manager_with : Bool → Journal → Manager PackageState
manager_with sideload journal = record {
  tv = state_with true;
  journal = journal;
  tasks = (a_task, queued 7 a_task "disable" a_package) ∷ [];
  apks = archives;
  profiles = [];
  settings = record {
    downloader_endpoint = "https://dl.example";
    adb_host = "192.0.2.1:5555";
    sideload_enabled = sideload;
  };
  running = [];
  threads = [];
  time = 100;
}

-- The thread that disables the package under row 1.
abbrev pub disabling_thread : Pending
disabling_thread = record {
  task = a_task;
  adb_host = "192.0.2.1:5555";
  thread = Thread.set_enabled 1 a_package false;
}
