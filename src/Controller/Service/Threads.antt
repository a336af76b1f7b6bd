-- ===== src/Controller/Service/Threads.antt =====
-- What every thread's body, and so every step of the service, does to the world outside: the rules for
-- the bodies, and the invariant along the steps.
use tv_safety_cleaner.Prelude.{ℕ, suc, String, Bool, List, [], ◌∷◌}
use tv_safety_cleaner.Exec.{Exec, Error}
use tv_safety_cleaner.Exec.Keeps.{Keeps-bind, Keeps-pure}
use tv_safety_cleaner.Controller.Device.{PackageState, DeviceIdentity}
use tv_safety_cleaner.Controller.Journal.{Row, Inverse}
use tv_safety_cleaner.Controller.Jobs.{
  Adb, Manager, Host, Thread, Pending, ProfilePackage, StateProfile, require_sideload,
}
use tv_safety_cleaner.Controller.Jobs.Start.{begin_operation}
use tv_safety_cleaner.Controller.Jobs.Run.{
  reporting, recording, complete_operation, resolve_apk, install_and_record, run_install,
  uninstall_and_record, run_uninstall, run_begun_update, run_update, set_enabled_and_record,
  run_set_enabled, restore_archive, apply_inverse, restore_and_record, run_rollback, run_download,
  run_check_update,
}
use tv_safety_cleaner.Controller.Jobs.Profiles.{
  get_profile, preview_package, preview_packages, install_version, reach_version, reach_enabled,
  apply_package, apply_packages, run_apply_profile, with_client, profile_preview,
  start_profile_apply,
}
use tv_safety_cleaner.Controller.Jobs.Threads.{run_thread, body}
use tv_safety_cleaner.Controller.Service.{
  Request, serve, clear_tasks, Step, requested, ran, configured, ticked, Steps, stays, goes_on,
}
use tv_safety_cleaner.Controller.Service.Outside.{
  ClientKeeps, HostKeeps, Spares, outside_rules, request_rules, Spares-with_client, Spares-check_tv,
  Spares-start_install, Spares-start_uninstall, Spares-start_update, Spares-start_download,
  Spares-start_check_update, Spares-start_set_enabled, Spares-start_rollback,
  Spares-delete_local_apk,
}

module _ {W : Type 0} {I : W → Type 0} (host : Host W) where
  Spares-reporting :
      (task status : String) (m : Exec (Manager W) (Unit {0}))
      → Spares I m
      → Spares I (reporting host task status m)
  unfolding reporting
  Spares-reporting task status m k = search outside_rules depth 12

  Spares-recording :
      {A : Type 0} (op : ℕ) (m : Exec (Manager W) A) → Spares I m → Spares I (recording host op m)
  unfolding recording
  Spares-recording op m k = search outside_rules depth 12

ruleset body_rules = (outside_rules, Spares-reporting, Spares-recording)

module _ {W : Type 0} {I : W → Type 0} (host : Host W) (client : Adb W)
    (k : ClientKeeps I client) where
  Spares-install_and_record :
      (op : ℕ) (apk p : String) (replaces : Bool)
      → Spares I (install_and_record host client op apk p replaces)
  unfolding install_and_record complete_operation
  Spares-install_and_record op apk p replaces =
      search (body_rules, k.install, k.package_state) depth 16

  Spares-uninstall_and_record :
      (op : ℕ) (p : String) → Spares I (uninstall_and_record host client op p)
  unfolding uninstall_and_record complete_operation
  Spares-uninstall_and_record op p = search (body_rules, k.uninstall, k.package_state) depth 16

  Spares-set_enabled_and_record :
      (op : ℕ) (p : String) (enabled : Bool) (inverse : Inverse) (wrong : Error)
      → Spares I (set_enabled_and_record host client op p enabled inverse wrong)
  unfolding set_enabled_and_record complete_operation
  Spares-set_enabled_and_record op p enabled inverse wrong =
      search (body_rules, k.set_enabled, k.package_state) depth 16

  Spares-run_install :
      (task : String) (op : ℕ) (apk p : String) (replaces : Bool)
      → Spares I (run_install host client task op apk p replaces)
  unfolding run_install
  Spares-run_install task op apk p replaces =
      search (body_rules, Spares-install_and_record) depth 16

  Spares-run_uninstall :
      (task : String) (op : ℕ) (p : String) → Spares I (run_uninstall host client task op p)
  unfolding run_uninstall
  Spares-run_uninstall task op p = search (body_rules, Spares-uninstall_and_record) depth 16

  Spares-run_set_enabled :
      (task : String) (op : ℕ) (p : String) (enabled : Bool)
      → Spares I (run_set_enabled host client task op p enabled)
  unfolding run_set_enabled
  Spares-run_set_enabled task op p enabled =
      search (body_rules, Spares-set_enabled_and_record) depth 16

  Spares-restore_archive : (original : Row) → Spares I (restore_archive host client original)
  unfolding restore_archive resolve_apk
  Spares-restore_archive original = search (body_rules, k.install, k.set_enabled) depth 16

  Spares-apply_inverse :
      (original : Row) (inverse : Inverse) → Spares I (apply_inverse host client original inverse)
  unfolding apply_inverse
  Spares-apply_inverse original Inverse.uninstall = search (body_rules, k.uninstall) depth 12
  Spares-apply_inverse original Inverse.install_apk = Spares-restore_archive original
  Spares-apply_inverse original Inverse.restore_apk = Spares-restore_archive original
  Spares-apply_inverse original Inverse.enable = search (body_rules, k.set_enabled) depth 12
  Spares-apply_inverse original Inverse.disable = search (body_rules, k.set_enabled) depth 12
  Spares-apply_inverse original Inverse.nothing = search body_rules

  Spares-restore_and_record :
      (rollback_id : ℕ) (original : Row)
      → Spares I (restore_and_record host client rollback_id original)
  unfolding restore_and_record complete_operation
  Spares-restore_and_record rollback_id original =
      search (body_rules, Spares-apply_inverse, k.package_state) depth 16

  Spares-run_rollback :
      (task : String) (rollback_id : ℕ) (original : Row)
      → Spares I (run_rollback host client task rollback_id original)
  unfolding run_rollback
  Spares-run_rollback task rollback_id original =
      search (body_rules, Spares-restore_and_record) depth 16

  Spares-preview_package :
      (desired : ProfilePackage) → Spares I (preview_package host client desired)
  unfolding preview_package
  Spares-preview_package desired = search (body_rules, k.package_state) depth 16

  Spares-preview_packages :
      (packages : List ProfilePackage) → Spares I (preview_packages host client packages)
  unfolding preview_packages
  Spares-preview_packages [] = search body_rules
  Spares-preview_packages (desired ∷ rest) =
      Keeps-bind _ _ (Spares-preview_package desired)
        λ first. Keeps-bind _ _ (Spares-preview_packages rest) λ others. Keeps-pure _

  Spares-reach_version :
      (profile : StateProfile) (desired : ProfilePackage) (current : PackageState)
      → Spares I (reach_version host client profile desired current)
  unfolding reach_version install_version begin_operation complete_operation resolve_apk
  Spares-reach_version profile desired current =
      search (body_rules, k.install, k.package_state) depth 28

  Spares-reach_enabled :
      (profile : StateProfile) (desired : ProfilePackage) (current : PackageState)
      → Spares I (reach_enabled host client profile desired current)
  unfolding reach_enabled begin_operation
  Spares-reach_enabled profile desired current =
      search (body_rules, Spares-set_enabled_and_record) depth 16

  Spares-apply_packages :
      (task : String) (profile : StateProfile) (index : ℕ) (packages : List ProfilePackage)
      → Spares I (apply_packages host client task profile index packages)
  unfolding apply_packages apply_package
  Spares-apply_packages task profile index [] = search body_rules
  Spares-apply_packages task profile index (desired ∷ rest) =
      let others = Spares-apply_packages task profile (suc index) rest in
      search (body_rules, k.package_state, Spares-reach_version, Spares-reach_enabled) depth 20

  Spares-run_apply_profile :
      (task : String) (profile : StateProfile)
      → Spares I (run_apply_profile host client task profile)
  unfolding run_apply_profile
  Spares-run_apply_profile task profile = search (body_rules, Spares-apply_packages) depth 12

module _ {W : Type 0} {I : W → Type 0} (host : Host W) (k : HostKeeps I host) where
  Spares-run_update :
      (address task endpoint p : String) (before : PackageState) (device : DeviceIdentity)
      (before_apk : String)
      → Spares I (run_update host (host.client address) task endpoint p before device before_apk)
  unfolding run_update run_begun_update begin_operation resolve_apk
  Spares-run_update address task endpoint p before device before_apk =
      let recorded = Spares-install_and_record host _ (k.client address) in
      search (body_rules, k.download, recorded) depth 24

  Spares-run_download : (task endpoint p : String) → Spares I (run_download host task endpoint p)
  unfolding run_download
  Spares-run_download task endpoint p = search (body_rules, k.download) depth 12

  Spares-run_check_update :
      (address task endpoint p : String)
      → Spares I (run_check_update host (host.client address) task endpoint p)
  unfolding run_check_update
  Spares-run_check_update address task endpoint p =
      let installed = λ (q : String). (k.client address).installed_version q in
      search (body_rules, k.available_version, installed) depth 16

  Spares-body :
      (address task : String) (thread : Thread)
      → Spares I (body host (host.client address) task thread)
  unfolding body
  Spares-body address task (Thread.install op apk p replaces) =
      Spares-run_install host _ (k.client address) task op apk p replaces
  Spares-body address task (Thread.uninstall op p) =
      Spares-run_uninstall host _ (k.client address) task op p
  Spares-body address task (Thread.update endpoint p before device before_apk) =
      Spares-run_update address task endpoint p before device before_apk
  Spares-body address task (Thread.set_enabled op p enabled) =
      Spares-run_set_enabled host _ (k.client address) task op p enabled
  Spares-body address task (Thread.rollback rollback_id original) =
      Spares-run_rollback host _ (k.client address) task rollback_id original
  Spares-body address task (Thread.apply_profile profile) =
      Spares-run_apply_profile host _ (k.client address) task profile
  Spares-body address task (Thread.download endpoint p) = Spares-run_download task endpoint p
  Spares-body address task (Thread.check_update endpoint p) =
      Spares-run_check_update address task endpoint p

  Spares-profile_preview : (i : String) → Spares I (profile_preview host i)
  unfolding profile_preview get_profile
  Spares-profile_preview i = search (request_rules, previewed) depth 20
    where
      previewed :
          (packages : List ProfilePackage)
          → Spares I (with_client host (λ c. preview_packages host c packages))
      previewed packages =
          Spares-with_client host k (λ c. preview_packages host c packages)
            λ c h. Spares-preview_packages host c h packages

  Spares-start_profile_apply : (task i : String) → Spares I (start_profile_apply host task i)
  unfolding start_profile_apply require_sideload
  Spares-start_profile_apply task i = search (request_rules, Spares-profile_preview) depth 20

  kept :
      {A : Type 0} {m : Exec (Manager W) A} → Spares I m → (s : Manager W) → I s.tv → I (m s).1.tv
  kept k s h = (k.at s (record { holds = h })).holds

  serve-holds : (r : Request) (s : Manager W) → I s.tv → I (serve host r s).tv
  unfolding serve
  serve-holds (Request.install task filename) s h =
      kept (Spares-start_install host k task filename) s h
  serve-holds (Request.uninstall task text) s h = kept (Spares-start_uninstall host k task text) s h
  serve-holds (Request.update task text) s h = kept (Spares-start_update host k task text) s h
  serve-holds (Request.download task text) s h = kept (Spares-start_download host k task text) s h
  serve-holds (Request.check_update task text) s h =
      kept (Spares-start_check_update host k task text) s h
  serve-holds (Request.set_enabled task text enabled) s h =
      kept (Spares-start_set_enabled host k task text enabled) s h
  serve-holds (Request.rollback task i) s h = kept (Spares-start_rollback host k task i) s h
  serve-holds (Request.profile_apply task i) s h = kept (Spares-start_profile_apply task i) s h
  serve-holds (Request.preview i) s h = kept (Spares-profile_preview i) s h
  serve-holds (Request.delete_apk filename) s h = kept (Spares-delete_local_apk host k filename) s h
  serve-holds Request.preflight s h = kept (Spares-check_tv host k) s h
  serve-holds Request.clear_finished s h = unfold clear_tasks in h

  run_thread-holds : (p : Pending) (s : Manager W) → I s.tv → I (run_thread host p s).tv
  unfolding run_thread
  run_thread-holds p s h = kept (Spares-body p.adb_host p.task p.thread) s h

  pub steps-holds : {s t : Manager W} → Steps host s t → I s.tv → I t.tv
  steps-holds (stays s) h = h
  steps-holds (goes_on before step) h = step_holds step (steps-holds before h)
    where
      step_holds : {s t : Manager W} → Step host s t → I s.tv → I t.tv
      step_holds (requested r s) h = serve-holds r s h
      step_holds (ran before after p s _) h = run_thread-holds p _ h
      step_holds (configured settings s) h = h
      step_holds (ticked s) h = h
