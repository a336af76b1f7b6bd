-- ===== src/Controller/Jobs.antt =====
-- `ApkJobManager` of tv_controller/apk_manager.py: the state that its methods share. A method that
-- starts a background task puts the closure of its thread, with what it captured, on `threads`; the
-- bodies of the threads are in `Run`. `W` is the state of the television and all else outside the
-- process. The clock's readings within one method or one thread are one value, `time`.
pub mod Start
pub mod Run
pub mod Profiles
pub mod Threads
pub mod Safety
pub mod Tidy
pub mod Entries
pub mod Bodies
pub mod Outcomes
pub mod Archives
pub mod Archived
use tv_safety_cleaner.Prelude.{
  ℕ, String, Bool, true, false, Option, none, some, List, [], ◌∷◌, ◌++◌, not, ◌&&◌, ◌||◌, ◌==◌,
  nat_eq, string_eq, if◌then◌else◌,
}
use tv_safety_cleaner.Prelude.Dict.{Dict}
use tv_safety_cleaner.Prelude.Json.{Json, num, str}
use tv_safety_cleaner.Exec.{
  Exec, Result, ok, err, Error, refusal, os_error, chain, refuse_if, pure, raise, lift, raise_if,
  catch, continue, ◌>>=◌, ◌>>◌,
}
use tv_safety_cleaner.Controller.Device.{DeviceIdentity, PackageState, device_eq, state_eq}
use tv_safety_cleaner.Controller.Names.{UrlLib, safe_apk_filename}
use tv_safety_cleaner.Controller.Tasks
use tv_safety_cleaner.Controller.Tasks.{Task, Tasks}
use tv_safety_cleaner.Controller.Journal.{Journal, Row, Inverse}

-- What the manager asks of its `AdbClient`.
pub record Adb (W : Type 0) : Type 0 where
  pub preflight : Exec W (Unit {0})
  pub device_identity : Exec W DeviceIdentity
  pub package_state : String → Exec W PackageState
  pub third_party_packages : Exec W (List String)
  pub set_enabled : String → Bool → Exec W String
  pub install : String → String → Exec W String
  pub uninstall : String → Exec W String
  pub installed_version : String → Exec W ℕ

-- A row of `list_apks`; the file's other columns are not read by the manager.
pub record Apk : Type 0 where
  pub file : String
  pub package_id : String
  pub version_code : ℕ

pub record ApkSettings : Type 0 where
  pub downloader_endpoint : String
  pub adb_host : String
  pub sideload_enabled : Bool

pub record ProfilePackage : Type 0 where
  pub package_id : String
  pub enabled : Bool
  pub version_code : ℕ
  pub version_name : String
  pub apk_file : String

pub record StateProfile : Type 0 where
  pub id : String
  pub name : String
  pub device : DeviceIdentity
  pub packages : List ProfilePackage
  pub created_at : String

-- The closure that a thread runs, with the variables that it captured.
pub data Thread : Type 0 where
  install : (operation : ℕ) (apk p : String) (replaces : Bool) → Thread
  uninstall : (operation : ℕ) (p : String) → Thread
  update :
      (endpoint p : String) (before : PackageState) (device : DeviceIdentity) (before_apk : String)
      → Thread
  set_enabled : (operation : ℕ) (p : String) (enabled : Bool) → Thread
  rollback : (rollback_id : ℕ) (original : Row) → Thread
  apply_profile : (profile : StateProfile) → Thread
  download : (endpoint p : String) → Thread
  check_update : (endpoint p : String) → Thread

-- A thread that has been started, with the host of the client that it captured.
pub record Pending : Type 0 where
  pub task : String
  pub adb_host : String
  pub thread : Thread

pub record Manager (W : Type 0) : Type 0 where
  pub tv : W
  pub journal : Journal
  pub tasks : Tasks
  pub apks : List Apk
  pub profiles : Dict StateProfile
  pub settings : ApkSettings
  pub running : List String
  pub threads : List Pending
  pub time : ℕ

-- What a download reads and writes: the network, the tasks and the archives.
pub record Disk (W : Type 0) : Type 0 where
  pub outside : W
  pub tasks : Tasks
  pub apks : List Apk

-- What `available_version` returns, and the address in the downloader's answer.
pub record Available : Type 0 where
  pub version : ℕ
  pub source : String
  pub download_url : String

-- What stands outside: the client for a host, the downloader, the standard library, the time's text.
pub record Host (W : Type 0) : Type 0 where
  pub lib : UrlLib
  pub client : String → Adb W
  pub download : String → String → String → Exec (Disk W) String
  pub available_version : String → String → String → Exec (Disk W) Available
  pub iso : ℕ → String

abbrev pub disk_of : {W : Type 0} → Manager W → Disk W
disk_of s = record { outside = s.tv; tasks = s.tasks; apks = s.apks }

module _ {W A : Type 0} where
  unfoldable pub on_tv : Exec W A → Exec (Manager W) A
  on_tv m s = ((m s.tv).0, record s { tv = (m s.tv).1 })

  unfoldable pub on_tasks : Exec Tasks A → Exec (Manager W) A
  on_tasks m s = ((m s.tasks).0, record s { tasks = (m s.tasks).1 })

  unfoldable pub on_disk : Exec (Disk W) A → Exec (Manager W) A
  on_disk m s =
      let (r, disk) = m (disk_of s) in
      (r, record s { tv = disk.outside; tasks = disk.tasks; apks = disk.apks })

  -- A pure computation on the state that may raise.
  unfoldable pub consult : (Manager W → Result A) → Exec (Manager W) A
  consult f s = (f s, s)

  unfoldable pub gets : (Manager W → A) → Exec (Manager W) A
  gets f s = (ok (f s), s)

-- The first archive of exactly this version, or the empty text.
unfoldable pub exact_apk : String → ℕ → List Apk → String
exact_apk p version [] = ""
exact_apk p version (apk ∷ apks) =
    if apk.package_id == p && apk.version_code == version
    then apk.file
    else exact_apk p version apks

-- `next((item for item in list_apks() if item["file"] == name), None)`
unfoldable pub find_apk : String → List Apk → Option Apk
find_apk name [] = none
find_apk name (apk ∷ apks) = if apk.file == name then some apk else find_apk name apks

abbrev or_unavailable : String → Option Apk → Result String
or_unavailable name none = err (os_error "No such file or directory")
or_unavailable name (some _) = ok name

-- `ApkRepository.resolve`: the name has no separator, so the file is in the repository's folder. The rows are
-- those of `*.apk`; a file whose name ends in `.APK` is none of them and is not modelled.
unfoldable pub resolve : UrlLib → String → List Apk → Result String
unfolding safe_apk_filename find_apk
resolve lib filename apks =
    chain (safe_apk_filename lib filename) λ name. or_unavailable name (find_apk name apks)

abbrev pub progress : String → String → ℕ → Dict Json
progress stage status percent =
    ("stage", str stage) ∷ ("status", str status) ∷ ("progress", num percent) ∷ []

abbrev pub with_detail : String → Dict Json → Dict Json
with_detail text changes = ("detail", str text) ∷ changes

abbrev pub with_error : String → Dict Json → Dict Json
with_error text changes = ("error", str text) ∷ changes

module _ {W A : Type 0} (host : Host W) where
  -- A method of the journal, at the time that it reads.
  unfoldable pub on_journal : (String → Exec Journal A) → Exec (Manager W) A
  on_journal m s =
      let now = host.iso s.time in ((m now s.journal).0, record s { journal = (m now s.journal).1 })

  -- A method of the client for the configured host.
  unfoldable pub on_client : (Adb W → Exec W A) → Exec (Manager W) A
  unfolding on_tv
  on_client m s = on_tv (m (host.client s.settings.adb_host)) s

module _ {W : Type 0} (host : Host W) where
  -- `self.repository.tasks.update(task_id, …)`
  unfoldable pub report : String → Dict Json → Exec (Manager W) (Unit {0})
  report task changes s =
      let (r, tasks) = Tasks.update s.time task changes s.tasks in
      (chain r (λ _. ok tt), record s { tasks = tasks })

  -- `self.repository.tasks.new(package, kind=kind)`; the id that is made up is an argument.
  unfoldable pub new_task : String → String → String → Exec (Manager W) String
  unfolding on_tasks
  new_task task p kind s = on_tasks (Tasks.new host.lib s.time task p kind) s

  -- `_start`
  unfoldable pub start : String → Thread → Exec (Manager W) (Unit {0})
  start task thread s =
      let pending : Pending = record {
        task = task;
        adb_host = s.settings.adb_host;
        thread = thread;
      } in
      (ok tt, record s { running = task ∷ s.running; threads = s.threads ++ (pending ∷ []) })

  unfoldable pub require_sideload : Exec (Manager W) (Unit {0})
  require_sideload = consult λ s.
      refuse_if (not s.settings.sideload_enabled)
        (refusal "Enable sideloading in Controller Settings first")

  unfoldable pub check_tv : Exec (Manager W) (Unit {0})
  check_tv = on_client host (λ client. client.preflight)
