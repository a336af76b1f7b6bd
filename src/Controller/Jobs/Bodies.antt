-- ===== src/Controller/Jobs/Bodies.antt =====
-- What the body of every thread does to the journal.
use tv_safety_cleaner.Prelude.{ℕ, suc, String, Bool, List, [], ◌∷◌}
use tv_safety_cleaner.Exec.{Exec, Result, ok, err, Error, pure, continue, ◌>>=◌, ◌>>◌}
use tv_safety_cleaner.Controller.Journal.{Row, Inverse}
use tv_safety_cleaner.Controller.Jobs.{Adb, Manager, Host, Thread}
use tv_safety_cleaner.Controller.Jobs.{StateProfile, ProfilePackage}
use tv_safety_cleaner.Controller.Device.{DeviceIdentity, PackageState}
use tv_safety_cleaner.Controller.Jobs.Run.{
  resolve_apk, install_and_record, run_install, uninstall_and_record, run_uninstall,
  run_begun_update, run_update, set_enabled_and_record, run_set_enabled, restore_archive,
  apply_inverse, restore_and_record, run_rollback, run_download, run_check_update,
}
use tv_safety_cleaner.Controller.Jobs.Profiles.{
  install_version, reach_version, reach_enabled, apply_package, apply_packages, run_apply_profile,
}
use tv_safety_cleaner.Controller.Jobs.Threads.{body}
use tv_safety_cleaner.Controller.Jobs.Tidy.{
  Tidy, Aside, Settles, Resolved, Aside-Tidy, Aside-pure, Aside-raise, Aside-lift, Aside-on_tv,
  Aside-on_disk, Aside-gets, Aside-consult, Aside-raise_if, Tidy-if, Tidy-bind, Settles-bind,
  Settles-first,
}
use tv_safety_cleaner.Controller.Jobs.Entries.{
  Closes, Aside-report, Tidy-complete, Settles-complete, Tidy-finish, Tidy-recording,
  Closes-recording, Tidy-reporting, Closes-reporting, Tidy-begin,
}

ruleset aside_rules = (
  Aside-pure, Aside-raise, Aside-lift, Aside-on_tv, Aside-on_disk, Aside-gets, Aside-consult,
  Aside-raise_if, Aside-report,
)

ruleset tidy_rules = (aside_rules, Aside-Tidy, Tidy-bind, Tidy-if, Tidy-complete, Tidy-finish)

ruleset settle_rules = (tidy_rules, Settles-bind, Settles-first, Settles-complete)

closed_rest :
    {W : Type 0} (i : ℕ) (r : Result String) (s : Manager W)
    → Resolved i s.journal
    → Resolved i (continue {A = String} (λ _. pure {A = Unit {0}} tt) (r, s)).1.journal
unfolding pure
closed_rest i (ok a) s h = h
closed_rest i (err e) s h = h

module _ {W : Type 0} (host : Host W) (client : Adb W) where
  Aside-resolve_apk : (file : String) → Aside (resolve_apk host file)
  unfolding resolve_apk
  Aside-resolve_apk file = search aside_rules

  Tidy-install_and_record :
      (op : ℕ) (apk p : String) (replaces : Bool)
      → Tidy (install_and_record host client op apk p replaces)
  unfolding install_and_record
  Tidy-install_and_record op apk p replaces = search tidy_rules depth 12

  Settles-install_and_record :
      (op : ℕ) (apk p : String) (replaces : Bool)
      → Settles op (install_and_record host client op apk p replaces)
  unfolding install_and_record
  Settles-install_and_record op apk p replaces = search settle_rules depth 12

  Tidy-uninstall_and_record : (op : ℕ) (p : String) → Tidy (uninstall_and_record host client op p)
  unfolding uninstall_and_record
  Tidy-uninstall_and_record op p = search tidy_rules depth 12

  Settles-uninstall_and_record :
      (op : ℕ) (p : String) → Settles op (uninstall_and_record host client op p)
  unfolding uninstall_and_record
  Settles-uninstall_and_record op p = search settle_rules depth 12

  Tidy-set_enabled_and_record :
      (op : ℕ) (p : String) (enabled : Bool) (inverse : Inverse) (wrong : Error)
      → Tidy (set_enabled_and_record host client op p enabled inverse wrong)
  unfolding set_enabled_and_record
  Tidy-set_enabled_and_record op p enabled inverse wrong = search tidy_rules depth 12

  Settles-set_enabled_and_record :
      (op : ℕ) (p : String) (enabled : Bool) (inverse : Inverse) (wrong : Error)
      → Settles op (set_enabled_and_record host client op p enabled inverse wrong)
  unfolding set_enabled_and_record
  Settles-set_enabled_and_record op p enabled inverse wrong = search settle_rules depth 12

  Tidy-restore_archive : (original : Row) → Tidy (restore_archive host client original)
  unfolding restore_archive
  Tidy-restore_archive original = search (tidy_rules, Aside-resolve_apk) depth 12

  Tidy-apply_inverse :
      (original : Row) (inverse : Inverse) → Tidy (apply_inverse host client original inverse)
  unfolding apply_inverse
  Tidy-apply_inverse original Inverse.install_apk = Tidy-restore_archive original
  Tidy-apply_inverse original Inverse.restore_apk = Tidy-restore_archive original
  Tidy-apply_inverse original _ = search tidy_rules depth 12

  Tidy-restore_and_record :
      (i : ℕ) (original : Row) → Tidy (restore_and_record host client i original)
  unfolding restore_and_record
  Tidy-restore_and_record i original = search (tidy_rules, Tidy-apply_inverse) depth 12

  Settles-restore_and_record :
      (i : ℕ) (original : Row) → Settles i (restore_and_record host client i original)
  unfolding restore_and_record
  Settles-restore_and_record i original = search (settle_rules, Tidy-apply_inverse) depth 14

  ruleset part_rules = (
    Tidy-install_and_record, Tidy-uninstall_and_record, Tidy-set_enabled_and_record,
    Tidy-restore_and_record, Settles-install_and_record, Settles-uninstall_and_record,
    Settles-set_enabled_and_record, Settles-restore_and_record, Tidy-recording, Closes-recording,
    Tidy-reporting, Closes-reporting,
  )

  pub Closes-run_install :
      (task : String) (op : ℕ) (apk p : String) (replaces : Bool)
      → Closes op (run_install host client task op apk p replaces)
  unfolding run_install
  Closes-run_install task op apk p replaces = search (settle_rules, part_rules) depth 12

  Tidy-run_install :
      (task : String) (op : ℕ) (apk p : String) (replaces : Bool)
      → Tidy (run_install host client task op apk p replaces)
  unfolding run_install
  Tidy-run_install task op apk p replaces = search (tidy_rules, part_rules) depth 12

  pub Closes-run_uninstall :
      (task : String) (op : ℕ) (p : String) → Closes op (run_uninstall host client task op p)
  unfolding run_uninstall
  Closes-run_uninstall task op p = search (settle_rules, part_rules) depth 12

  Tidy-run_uninstall :
      (task : String) (op : ℕ) (p : String) → Tidy (run_uninstall host client task op p)
  unfolding run_uninstall
  Tidy-run_uninstall task op p = search (tidy_rules, part_rules) depth 12

  pub Closes-run_set_enabled :
      (task : String) (op : ℕ) (p : String) (enabled : Bool)
      → Closes op (run_set_enabled host client task op p enabled)
  unfolding run_set_enabled
  Closes-run_set_enabled task op p enabled = search (settle_rules, part_rules) depth 12

  Tidy-run_set_enabled :
      (task : String) (op : ℕ) (p : String) (enabled : Bool)
      → Tidy (run_set_enabled host client task op p enabled)
  unfolding run_set_enabled
  Tidy-run_set_enabled task op p enabled = search (tidy_rules, part_rules) depth 12

  pub Closes-run_rollback :
      (task : String) (i : ℕ) (original : Row) → Closes i (run_rollback host client task i original)
  unfolding run_rollback
  Closes-run_rollback task i original = search (settle_rules, part_rules) depth 12

  Tidy-run_rollback :
      (task : String) (i : ℕ) (original : Row) → Tidy (run_rollback host client task i original)
  unfolding run_rollback
  Tidy-run_rollback task i original = search (tidy_rules, part_rules) depth 12

  Closes-run_begun_update :
      (task : String) (op : ℕ) (apk p : String)
      → Closes op (run_begun_update host client task op apk p)
  unfolding run_begun_update
  Closes-run_begun_update task op apk p = search (settle_rules, part_rules) depth 12

  Tidy-run_begun_update :
      (task : String) (op : ℕ) (apk p : String) → Tidy (run_begun_update host client task op apk p)
  unfolding run_begun_update
  Tidy-run_begun_update task op apk p = search (tidy_rules, part_rules) depth 12

  Tidy-run_update :
      (task endpoint p : String) (before : PackageState) (device : DeviceIdentity)
      (before_apk : String)
      → Tidy (run_update host client task endpoint p before device before_apk)
  unfolding run_update
  Tidy-run_update task endpoint p before device before_apk =
      search
        (
          tidy_rules, part_rules, Aside-resolve_apk, Tidy-begin, Tidy-run_begun_update,
          Closes-run_begun_update,
        )
        depth 12

  Tidy-install_version :
      (profile : StateProfile) (desired : ProfilePackage) (current : PackageState)
      (before_apk : String)
      → Tidy (install_version host client profile desired current before_apk)
  unfolding install_version
  Tidy-install_version profile desired current before_apk =
      search (settle_rules, part_rules, Aside-resolve_apk, Tidy-begin) depth 14

  -- The rest of a block after an action that closes the row.
  Closes-then :
      (i : ℕ) (m : Exec (Manager W) String)
      → Tidy m
      → Closes i m
      → Closes i (m >> pure {A = Unit {0}} tt)
  unfolding ◌>>=◌
  Closes-then i m t c = record { at = λ s v. closed_rest i (m s).0 (m s).1 (c.at s v) }

  Tidy-reach_version :
      (profile : StateProfile) (desired : ProfilePackage) (current : PackageState)
      → Tidy (reach_version host client profile desired current)
  unfolding reach_version
  Tidy-reach_version profile desired current = search (tidy_rules, Tidy-install_version) depth 12

  Tidy-reach_enabled :
      (profile : StateProfile) (desired : ProfilePackage) (current : PackageState)
      → Tidy (reach_enabled host client profile desired current)
  unfolding reach_enabled
  Tidy-reach_enabled profile desired current =
      search (settle_rules, part_rules, Tidy-begin, Closes-then) depth 14

  Tidy-apply_package :
      (profile : StateProfile) (desired : ProfilePackage)
      → Tidy (apply_package host client profile desired)
  unfolding apply_package
  Tidy-apply_package profile desired =
      search (tidy_rules, Tidy-reach_version, Tidy-reach_enabled) depth 12

  Tidy-apply_packages :
      (task : String) (profile : StateProfile) (index : ℕ) (packages : List ProfilePackage)
      → Tidy (apply_packages host client task profile index packages)
  unfolding apply_packages
  Tidy-apply_packages task profile index [] = search tidy_rules
  Tidy-apply_packages task profile index (desired ∷ rest) =
      let others = Tidy-apply_packages task profile (suc index) rest in
      search (tidy_rules, Tidy-apply_package) depth 12

  Tidy-run_apply_profile :
      (task : String) (profile : StateProfile) → Tidy (run_apply_profile host client task profile)
  unfolding run_apply_profile
  Tidy-run_apply_profile task profile =
      search (tidy_rules, part_rules, Tidy-apply_packages) depth 12

  Tidy-run_download : (task endpoint p : String) → Tidy (run_download host task endpoint p)
  unfolding run_download
  Tidy-run_download task endpoint p = search (tidy_rules, part_rules) depth 12

  Tidy-run_check_update :
      (task endpoint p : String) → Tidy (run_check_update host client task endpoint p)
  unfolding run_check_update
  Tidy-run_check_update task endpoint p = search (tidy_rules, part_rules) depth 12

  -- Whatever a thread does and however it ends, the journal stays valid and no row is pending that
  -- was not pending before.
  pub Tidy-body : (task : String) (thread : Thread) → Tidy (body host client task thread)
  unfolding body
  Tidy-body task (Thread.install op apk p replaces) = Tidy-run_install task op apk p replaces
  Tidy-body task (Thread.uninstall op p) = Tidy-run_uninstall task op p
  Tidy-body task (Thread.update endpoint p before device before_apk) =
      Tidy-run_update task endpoint p before device before_apk
  Tidy-body task (Thread.set_enabled op p enabled) = Tidy-run_set_enabled task op p enabled
  Tidy-body task (Thread.rollback i original) = Tidy-run_rollback task i original
  Tidy-body task (Thread.apply_profile profile) = Tidy-run_apply_profile task profile
  Tidy-body task (Thread.download endpoint p) = Tidy-run_download task endpoint p
  Tidy-body task (Thread.check_update endpoint p) = Tidy-run_check_update task endpoint p
