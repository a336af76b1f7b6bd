-- ===== src/Controller/Jobs/Threads.antt =====
-- The threads as steps of the whole service: `_start`'s wrapper runs a body, swallows what it raises
-- and takes the task off `_running`. Requests and threads interleave in any order; one thread's body
-- runs without another's in between.
use tv_safety_cleaner.Prelude.{String, not, ◌==◌, string_eq, select}
use tv_safety_cleaner.Exec.{Exec}
use tv_safety_cleaner.Controller.Jobs.{Adb, Manager, Host, Pending, Thread}
use tv_safety_cleaner.Controller.Jobs.Run.{
  run_install, run_uninstall, run_update, run_set_enabled, run_rollback, run_download,
  run_check_update,
}
use tv_safety_cleaner.Controller.Jobs.Profiles.{run_apply_profile}

module _ {W : Type 0} (host : Host W) where
  unfoldable pub body : Adb W → String → Thread → Exec (Manager W) (Unit {0})
  body client task (Thread.install op apk p replaces) =
      run_install host client task op apk p replaces
  body client task (Thread.uninstall op p) = run_uninstall host client task op p
  body client task (Thread.update endpoint p before device before_apk) =
      run_update host client task endpoint p before device before_apk
  body client task (Thread.set_enabled op p enabled) = run_set_enabled host client task op p enabled
  body client task (Thread.rollback rollback_id original) =
      run_rollback host client task rollback_id original
  body client task (Thread.apply_profile profile) = run_apply_profile host client task profile
  body client task (Thread.download endpoint p) = run_download host task endpoint p
  body client task (Thread.check_update endpoint p) = run_check_update host client task endpoint p

  abbrev pub discard : String → Manager W → Manager W
  discard task s = record s { running = select (λ t. not (t == task)) s.running }

  unfoldable pub run_thread : Pending → Manager W → Manager W
  run_thread p s = discard p.task (body (host.client p.adb_host) p.task p.thread s).1
