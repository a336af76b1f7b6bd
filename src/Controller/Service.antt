-- ===== src/Controller/Service.antt =====
-- The service around the job manager: what a browser can ask of `ApkJobManager` and what a started
-- thread does, in any order. A thread that has been started is taken from `threads` when it runs; one
-- thread's body, and one request, run without another's in between.
pub mod Outside
pub mod Threads
pub mod Commands
use tv_safety_cleaner.Prelude.{ℕ, suc, String, ◌≡◌, Bool, List, ◌∷◌, ◌++◌}
use tv_safety_cleaner.Controller.Jobs.{Manager, Host, Pending, ApkSettings, check_tv, on_tasks}
use tv_safety_cleaner.Controller.Tasks
use tv_safety_cleaner.Exec.{Exec, ok}
use tv_safety_cleaner.Controller.Jobs.Start.{
  start_install, start_uninstall, start_update, start_download, start_check_update,
  start_set_enabled, start_rollback,
}
use tv_safety_cleaner.Controller.Jobs.Profiles.{start_profile_apply, profile_preview}
use tv_safety_cleaner.Controller.Jobs.Archives.{delete_local_apk}
use tv_safety_cleaner.Controller.Jobs.Threads.{run_thread}

-- The requests; `task` is the identifier that is made up for the task.
pub data Request : Type 0 where
  install : (task filename : String) → Request
  uninstall : (task text : String) → Request
  update : (task text : String) → Request
  download : (task text : String) → Request
  check_update : (task text : String) → Request
  set_enabled : (task text : String) (enabled : Bool) → Request
  rollback : (task : String) (operation : ℕ) → Request
  profile_apply : (task profile : String) → Request
  preview : (profile : String) → Request
  delete_apk : (filename : String) → Request
  preflight : Request
  clear_finished : Request

-- `clear_finished` of the manager.
unfoldable pub clear_tasks : {W : Type 0} → Exec (Manager W) ℕ
unfolding on_tasks
clear_tasks =
    on_tasks (λ tasks. (ok (Tasks.clear_finished tasks).0, (Tasks.clear_finished tasks).1))

module _ {W : Type 0} (host : Host W) where
  unfoldable pub serve : Request → Manager W → Manager W
  serve (Request.install task filename) s = (start_install host task filename s).1
  serve (Request.uninstall task text) s = (start_uninstall host task text s).1
  serve (Request.update task text) s = (start_update host task text s).1
  serve (Request.download task text) s = (start_download host task text s).1
  serve (Request.check_update task text) s = (start_check_update host task text s).1
  serve (Request.set_enabled task text enabled) s = (start_set_enabled host task text enabled s).1
  serve (Request.rollback task i) s = (start_rollback host task i s).1
  serve (Request.profile_apply task i) s = (start_profile_apply host task i s).1
  serve (Request.preview i) s = (profile_preview host i s).1
  serve (Request.delete_apk filename) s = (delete_local_apk host filename s).1
  serve Request.preflight s = (check_tv host s).1
  serve Request.clear_finished s = (clear_tasks s).1

  pub data Step : Manager W → Manager W → Type 0 where
    requested : (r : Request) (s : Manager W) → Step s (serve r s)
    ran :
        (before after : List Pending) (p : Pending) (s : Manager W)
        → s.threads ≡ before ++ (p ∷ after)
        → Step s (run_thread host p (record s { threads = before ++ after }))
    -- The settings are saved: the next thread's client may be for another television.
    configured :
        (settings : ApkSettings) (s : Manager W) → Step s (record s { settings = settings })
    ticked : (s : Manager W) → Step s (record s { time = suc s.time })

  pub data Steps : Manager W → Manager W → Type 0 where
    stays : (s : Manager W) → Steps s s
    goes_on : {s t u : Manager W} → Steps s t → Step t u → Steps s u
