-- ===== src/Controller/Jobs/Outcomes.antt =====
-- What every thread leaves in the journal, however it ends.
use tv_safety_cleaner.Prelude.{ℕ, String, ◌≡◌, true, false, Option, none, some}
use tv_safety_cleaner.Controller.Journal.{Row, find_row, is_pending}
use tv_safety_cleaner.Controller.Jobs.{Adb, Manager, Host, Thread}
use tv_safety_cleaner.Controller.Jobs.{Pending}
use tv_safety_cleaner.Controller.Jobs.Run.{
  run_install, run_uninstall, run_set_enabled, run_rollback,
}
use tv_safety_cleaner.Controller.Jobs.Profiles.{}
use tv_safety_cleaner.Controller.Jobs.Threads.{body, run_thread}
use mathlib.Core.Path.{subst}
use tv_safety_cleaner.Controller.Journal.Invariant.{IsValid}
use tv_safety_cleaner.Controller.Jobs.Tidy.{}
use tv_safety_cleaner.Controller.Jobs.Entries.{Closes}
use tv_safety_cleaner.Controller.Jobs.Bodies.{
  Closes-run_install, Closes-run_uninstall, Closes-run_set_enabled, Closes-run_rollback, Tidy-body,
}

same_operation : {a b : ℕ} → some a ≡ some b → a ≡ b
same_operation e = cc

-- The row that a thread was started for.
abbrev pub operation_of : Thread → Option ℕ
operation_of (Thread.install op _ _ _) = some op
operation_of (Thread.uninstall op _) = some op
operation_of (Thread.set_enabled op _ _) = some op
operation_of (Thread.rollback i _) = some i
operation_of _ = none

module _ {W : Type 0} (host : Host W) where
  Closes-body :
      (client : Adb W) (task : String) (thread : Thread) (i : ℕ)
      → operation_of thread ≡ some i
      → Closes i (body host client task thread)
  unfolding body
  Closes-body client task (Thread.install op apk p replaces) i e =
      subst (λ m. Closes m (run_install host client task op apk p replaces)) (same_operation e)
        (Closes-run_install host client task op apk p replaces)
  Closes-body client task (Thread.uninstall op p) i e =
      subst (λ m. Closes m (run_uninstall host client task op p)) (same_operation e)
        (Closes-run_uninstall host client task op p)
  Closes-body client task (Thread.update endpoint p before device before_apk) i e = cc
  Closes-body client task (Thread.set_enabled op p enabled) i e =
      subst (λ m. Closes m (run_set_enabled host client task op p enabled)) (same_operation e)
        (Closes-run_set_enabled host client task op p enabled)
  Closes-body client task (Thread.rollback k original) i e =
      subst (λ m. Closes m (run_rollback host client task k original)) (same_operation e)
        (Closes-run_rollback host client task k original)
  Closes-body client task (Thread.apply_profile profile) i e = cc
  Closes-body client task (Thread.download endpoint p) i e = cc
  Closes-body client task (Thread.check_update endpoint p) i e = cc

  -- Whatever the TV answers and however a thread ends, the journal stays valid, and a row that is
  -- pending afterwards was there before, pending, as the same row.
  pub run_thread_tidy :
      (p : Pending) (s : Manager W) (i : ℕ) (r : Row)
      → IsValid s.journal
      → find_row i (run_thread host p s).journal.rows ≡ some r
      → is_pending r.status ≡ true
      → IsValid (run_thread host p s).journal × (find_row i s.journal.rows ≡ some r)
  unfolding run_thread
  run_thread_tidy p s i r v found pending =
      let (valid, same) = (Tidy-body host (host.client p.adb_host) p.task p.thread).at s v in
      (valid, same i r found pending)

  -- The operation for which a thread was started is not pending once the thread has ended, whether the
  -- thread returned or raised.
  pub run_thread_resolves :
      (p : Pending) (s : Manager W) (i : ℕ) (r : Row)
      → IsValid s.journal
      → operation_of p.thread ≡ some i
      → find_row i (run_thread host p s).journal.rows ≡ some r
      → is_pending r.status ≡ false
  unfolding run_thread
  run_thread_resolves p s i r v e found =
      (Closes-body (host.client p.adb_host) p.task p.thread i e).at s v r found
