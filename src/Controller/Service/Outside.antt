-- ===== src/Controller/Service/Outside.antt =====
-- An invariant of the world outside the process that the client and the downloader keep is kept by
-- every request and every thread.
use tv_safety_cleaner.Prelude.{ℕ, String, Bool}
use tv_safety_cleaner.Prelude.Dict.{Dict}
use tv_safety_cleaner.Prelude.Json.{Json}
use tv_safety_cleaner.Exec.{Exec, Result, ok, err}
use tv_safety_cleaner.Exec.Keeps.{Keeps, keeps_rules, Keeps-bind, Keeps-if}
use tv_safety_cleaner.Controller.Tasks.{Tasks}
use tv_safety_cleaner.Controller.Journal.{Journal}
use tv_safety_cleaner.Controller.Jobs.{
  Adb, Manager, Disk, Host, Thread, on_tv, on_tasks, on_disk, consult, gets, on_journal, on_client,
  report, new_task, start, require_sideload, check_tv, resolve,
}
use tv_safety_cleaner.Controller.Jobs.Start.{
  begin_operation, mutation_context, start_install, start_uninstall, start_update, start_download,
  start_check_update, start_set_enabled, start_rollback, reconcile, begin_rollback,
}
use tv_safety_cleaner.Controller.Jobs.Run.{}
use tv_safety_cleaner.Controller.Jobs.Profiles.{with_client}
use tv_safety_cleaner.Controller.Jobs.Archives.{delete, delete_local_apk, without}
use tv_safety_cleaner.Controller.Service.{}

-- The invariant, of the world as the manager and as the downloader hold it.
pub record OnManager {W : Type 0} (I : W → Type 0) (s : Manager W) : Type 0 where
  pub holds : I s.tv

pub record OnDisk {W : Type 0} (I : W → Type 0) (d : Disk W) : Type 0 where
  pub holds : I d.outside

-- Every operation of the client keeps the invariant.
pub record ClientKeeps {W : Type 0} (I : W → Type 0) (client : Adb W) : Type 0 where
  pub preflight : Keeps I client.preflight
  pub device_identity : Keeps I client.device_identity
  pub package_state : (p : String) → Keeps I (client.package_state p)
  pub third_party_packages : Keeps I client.third_party_packages
  pub set_enabled : (p : String) (enabled : Bool) → Keeps I (client.set_enabled p enabled)
  pub install : (apk p : String) → Keeps I (client.install apk p)
  pub uninstall : (p : String) → Keeps I (client.uninstall p)
  pub installed_version : (p : String) → Keeps I (client.installed_version p)

pub record HostKeeps {W : Type 0} (I : W → Type 0) (host : Host W) : Type 0 where
  pub client : (address : String) → ClientKeeps I (host.client address)
  pub download : (endpoint p task : String) → Keeps (OnDisk I) (host.download endpoint p task)
  pub available_version :
      (endpoint p task : String) → Keeps (OnDisk I) (host.available_version endpoint p task)

module _ {W : Type 0} (I : W → Type 0) where
  -- The action keeps the invariant of the world outside.
  abbrev pub Spares : {A : Type 0} → Exec (Manager W) A → Type 0
  Spares m = Keeps (OnManager I) m

module _ {W A : Type 0} {I : W → Type 0} where
  pub Spares-on_tv : (m : Exec W A) → Keeps I m → Spares I (on_tv m)
  unfolding on_tv
  Spares-on_tv m k = record { at = λ s h. record { holds = k.at s.tv h.holds } }

  pub Spares-on_disk : (m : Exec (Disk W) A) → Keeps (OnDisk I) m → Spares I (on_disk m)
  unfolding on_disk
  Spares-on_disk m k = record {
    at = λ s h. record { holds = (k.at _ (record { holds = h.holds })).holds };
  }

  pub Spares-on_tasks : (m : Exec Tasks A) → Spares I (on_tasks {W = W} m)
  unfolding on_tasks
  Spares-on_tasks m = record { at = λ s h. record { holds = h.holds } }

  pub Spares-consult : (f : Manager W → Result A) → Spares I (consult f)
  unfolding consult
  Spares-consult f = record { at = λ s h. record { holds = h.holds } }

  pub Spares-gets : (f : Manager W → A) → Spares I (gets f)
  unfolding gets
  Spares-gets f = record { at = λ s h. record { holds = h.holds } }

module _ {W : Type 0} {I : W → Type 0} (host : Host W) where
  pub Spares-on_journal : {A : Type 0} (m : String → Exec Journal A) → Spares I (on_journal host m)
  unfolding on_journal
  Spares-on_journal m = record { at = λ s h. record { holds = h.holds } }

  pub Spares-report : (task : String) (changes : Dict Json) → Spares I (report host task changes)
  unfolding report
  Spares-report task changes = record { at = λ s h. record { holds = h.holds } }

  pub Spares-new_task : (task p kind : String) → Spares I (new_task host task p kind)
  unfolding new_task on_tasks
  Spares-new_task task p kind = record { at = λ s h. record { holds = h.holds } }

  pub Spares-start : (task : String) (thread : Thread) → Spares I (start host task thread)
  unfolding start
  Spares-start task thread = record { at = λ s h. record { holds = h.holds } }

pub ruleset outside_rules = (
  keeps_rules, Spares-on_tv, Spares-on_disk, Spares-on_tasks, Spares-consult, Spares-gets,
  Spares-on_journal, Spares-report, Spares-new_task, Spares-start,
)

module _ {W : Type 0} {I : W → Type 0} (host : Host W) (k : HostKeeps I host) where
  pub Spares-with_client :
      {A : Type 0} (f : Adb W → Exec (Manager W) A)
      → ((c : Adb W) → ClientKeeps I c → Spares I (f c))
      → Spares I (with_client host f)
  unfolding with_client
  Spares-with_client f g = record { at = λ s h. (g _ (k.client s.settings.adb_host)).at s h }

  pub Spares-on_client :
      {A : Type 0} (m : Adb W → Exec W A)
      → ((c : Adb W) → ClientKeeps I c → Keeps I (m c))
      → Spares I (on_client host m)
  unfolding on_client on_tv
  Spares-on_client m g = record {
    at = λ s h. record { holds = (g _ (k.client s.settings.adb_host)).at s.tv h.holds };
  }

  pub Spares-check_tv : Spares I (check_tv host)
  unfolding check_tv
  Spares-check_tv = Spares-on_client _ λ c h. h.preflight

  pub Spares-device_identity : Spares I (on_client host (λ client. client.device_identity))
  Spares-device_identity = Spares-on_client _ λ c h. h.device_identity

  pub Spares-package_state :
      (p : String) → Spares I (on_client host (λ client. client.package_state p))
  Spares-package_state p = Spares-on_client _ λ c h. h.package_state p

  pub ruleset request_rules =
      (outside_rules, Spares-check_tv, Spares-device_identity, Spares-package_state)

  pub Spares-mutation_context :
      (p : String) (required : Bool) → Spares I (mutation_context host p required)
  unfolding mutation_context
  Spares-mutation_context p required = search request_rules depth 16

  pub Spares-start_uninstall : (task text : String) → Spares I (start_uninstall host task text)
  unfolding start_uninstall require_sideload begin_operation
  Spares-start_uninstall task text = search (request_rules, Spares-mutation_context) depth 24

  pub Spares-start_install : (task name : String) → Spares I (start_install host task name)
  unfolding start_install require_sideload begin_operation
  Spares-start_install task name = search (request_rules, Spares-mutation_context) depth 24

  pub Spares-start_update : (task text : String) → Spares I (start_update host task text)
  unfolding start_update require_sideload
  Spares-start_update task text = search (request_rules, Spares-mutation_context) depth 24

  pub Spares-start_download : (task text : String) → Spares I (start_download host task text)
  unfolding start_download
  Spares-start_download task text = search request_rules depth 16

  pub Spares-start_check_update :
      (task text : String) → Spares I (start_check_update host task text)
  unfolding start_check_update
  Spares-start_check_update task text = search request_rules depth 16

  pub Spares-start_set_enabled :
      (task text : String) (enabled : Bool) → Spares I (start_set_enabled host task text enabled)
  unfolding start_set_enabled require_sideload begin_operation
  Spares-start_set_enabled task text enabled =
      search (request_rules, Spares-mutation_context) depth 28

  pub Spares-start_rollback : (task : String) (i : ℕ) → Spares I (start_rollback host task i)
  unfolding start_rollback require_sideload reconcile begin_rollback begin_operation
  Spares-start_rollback task i = search request_rules depth 28

  pub Spares-delete : (name : String) → Spares I (delete host name)
  unfolding delete
  Spares-delete name = record {
    at = λ s h. record { holds = left s h.holds (resolve host.lib name s.apks) };
  }
    where
      left :
          (s : Manager W)
          → I s.tv
          → (r : Result String)
          → I
              (elim r as (λ _. Result (Unit {0}) × Manager W) [
                | err e ↦ (err e, s)
                | ok file ↦ (ok tt, record s { apks = without file s.apks })
              ]).1.tv
      left s h (ok file) = h
      left s h (err e) = h

  pub Spares-delete_local_apk : (name : String) → Spares I (delete_local_apk host name)
  unfolding delete_local_apk
  Spares-delete_local_apk name = search (request_rules, Spares-delete) depth 12
