-- ===== src/Controller/Jobs/Run.antt =====
-- The bodies of the threads that `ApkJobManager` starts, and `_start`'s wrapper around them.
use tv_safety_cleaner.Prelude.{
  ℕ, String, ◌<>◌, Bool, true, false, not, ◌==◌, nat_eq, string_eq, bool_eq, if◌then◌else◌, ltb,
  ◌∷◌,
}
use tv_safety_cleaner.Prelude.Dict.{Dict}
use tv_safety_cleaner.Prelude.Json.{Json, num, str, bool}
use tv_safety_cleaner.Exec.{
  Exec, Error, refusal, message, pure, raise, raise_if, catch, ◌>>=◌, ◌>>◌,
}
use tv_safety_cleaner.Controller.Device.{DeviceIdentity, PackageState, device_eq, state_eq}
use tv_safety_cleaner.Controller.Journal.{Row, Action, Inverse, complete, fail, finish_rollback}
use tv_safety_cleaner.Controller.Jobs.{
  Adb, Manager, Host, Available, on_tv, on_journal, on_disk, consult, resolve, progress,
  with_detail, with_error, report,
}
use tv_safety_cleaner.Controller.Jobs.Start.{
  is_third_party, install_inverse, enabled_inverse, operation, begin_operation,
}

module _ {W : Type 0} (host : Host W) where
  -- `except Exception as exc: self.repository.tasks.update(task_id, stage="failed", …); raise`
  unfoldable pub reporting :
      String → String → Exec (Manager W) (Unit {0}) → Exec (Manager W) (Unit {0})
  reporting task status m =
      catch m
        λ e. report host task (with_error (message e) (progress "failed" status 100)) >> raise e

  -- `except Exception as exc: self.journal.fail(operation_id, str(exc)); … raise`
  unfoldable pub recording : {A : Type 0} → ℕ → Exec (Manager W) A → Exec (Manager W) A
  recording op m = catch m λ e. on_journal host (λ now. fail now op (message e)) >> raise e

  unfoldable pub complete_operation : ℕ → PackageState → Inverse → Exec (Manager W) (Unit {0})
  complete_operation op after inverse = on_journal host (λ now. complete now op after inverse)

  unfoldable pub run_download : String → String → String → Exec (Manager W) (Unit {0})
  run_download task endpoint p = on_disk (host.download endpoint p task) >> pure tt

  unfoldable pub resolve_apk : String → Exec (Manager W) String
  resolve_apk file = consult (λ s. resolve host.lib file s.apks)

  module _ (client : Adb W) where
    -- The call of the TV, the check of what it did, and the entry in the journal.
    unfoldable pub install_and_record : ℕ → String → String → Bool → Exec (Manager W) String
    install_and_record op apk p replaces = do
      output ← on_tv (client.install apk p)
      after ← on_tv (client.package_state p)
      raise_if (not (is_third_party after))
          (refusal ("Post-change state is not a third-party package: " <> p))
      complete_operation op after (install_inverse replaces)
      pure output

    unfoldable pub run_install : String → ℕ → String → String → Bool → Exec (Manager W) (Unit {0})
    run_install task op apk p replaces = reporting task "Failed" (
        recording op (do
          report host task (progress "installing" "Installing on TV" 40)
          output ← install_and_record op apk p replaces
          report host task (with_detail output (progress "result" "Installed" 100))))

    unfoldable pub uninstall_and_record : ℕ → String → Exec (Manager W) String
    uninstall_and_record op p = do
      output ← on_tv (client.uninstall p)
      after ← on_tv (client.package_state p)
      raise_if after.installed (refusal "Package is still installed after uninstall")
      complete_operation op after Inverse.install_apk
      pure output

    unfoldable pub run_uninstall : String → ℕ → String → Exec (Manager W) (Unit {0})
    run_uninstall task op p = reporting task "Failed" (
        recording op (do
          report host task (progress "uninstalling" "Uninstalling from TV" 40)
          output ← uninstall_and_record op p
          report host task (with_detail output (progress "result" "Uninstalled" 100))))

    -- The rest of `update` once its operation is in the journal.
    unfoldable pub run_begun_update : String → ℕ → String → String → Exec (Manager W) (Unit {0})
    run_begun_update task op apk p = recording op (do
      report host task (progress "installing" "Installing update on TV" 99)
      output ← install_and_record op apk p true
      report host task (with_detail output (progress "result" "Updated" 100)))

    unfoldable pub run_update :
        String
        → String
        → String
        → PackageState
        → DeviceIdentity
        → String
        → Exec (Manager W) (Unit {0})
    run_update task endpoint p before device before_apk = reporting task "Failed" (do
      file ← on_disk (host.download endpoint p task)
      apk ← resolve_apk file
      op ← begin_operation host (
          operation p Action.update Inverse.restore_apk
            (record { device = device; before = before; before_apk = before_apk }) apk)
      run_begun_update task op apk p)

    -- What the result of a check adds to the task.
    abbrev pub update_found : ℕ → Available → Dict Json
    update_found installed found =
        ("installedVersionCode", num installed)
        ∷ ("availableVersionCode", num found.version)
        ∷ ("availableVersionSource", str found.source)
        ∷ ("updateAvailable", bool (ltb installed found.version))
        ∷ ("downloadUrl", str found.download_url)
        ∷ progress "result"
            (if ltb installed found.version then "Update available" else "No update detected") 100

    unfoldable pub run_check_update : String → String → String → Exec (Manager W) (Unit {0})
    run_check_update task endpoint p = reporting task "Failed" (do
      report host task (progress "checking" "Checking installed version" 20)
      installed ← on_tv (client.installed_version p)
      found ← on_disk (host.available_version endpoint p task)
      report host task (update_found installed found))

    unfoldable pub set_enabled_and_record :
        ℕ → String → Bool → Inverse → Error → Exec (Manager W) String
    set_enabled_and_record op p enabled inverse wrong = do
      output ← on_tv (client.set_enabled p enabled)
      after ← on_tv (client.package_state p)
      raise_if (not (after.enabled == enabled)) wrong
      complete_operation op after inverse
      pure output

    unfoldable pub run_set_enabled : String → ℕ → String → Bool → Exec (Manager W) (Unit {0})
    run_set_enabled task op p enabled = reporting task "Failed" (
        recording op (do
          report host task (
              progress "applying"
                (if enabled then "Enable user package" else "Disable user package") 50)
          output ←
              set_enabled_and_record op p enabled (enabled_inverse enabled)
                (refusal "Android did not apply the requested enabled state")
          report host task (
              with_detail output (
                progress "result" (if enabled then "Package enabled" else "Package disabled")
                  100))))

    -- The archive is installed again, and disabled again if it was.
    unfoldable pub restore_archive : Row → Exec (Manager W) (Unit {0})
    restore_archive original = do
      apk ← resolve_apk original.before_apk
      output ← on_tv (client.install apk original.package_id)
      if original.before.enabled
          then pure tt
          else on_tv (client.set_enabled original.package_id false) >> pure tt

    -- `_apply_inverse`
    unfoldable pub apply_inverse : Row → Inverse → Exec (Manager W) (Unit {0})
    apply_inverse original Inverse.uninstall =
        on_tv (client.uninstall original.package_id) >> pure tt
    apply_inverse original Inverse.install_apk = restore_archive original
    apply_inverse original Inverse.restore_apk = restore_archive original
    apply_inverse original Inverse.enable =
        on_tv (client.set_enabled original.package_id true) >> pure tt
    apply_inverse original Inverse.disable =
        on_tv (client.set_enabled original.package_id false) >> pure tt
    apply_inverse original Inverse.nothing = raise (refusal "operation has no supported inverse")

    -- The inverse, the check that the TV is back in the recorded state, and the two journal entries.
    unfoldable pub restore_and_record : ℕ → Row → Exec (Manager W) (Unit {0})
    restore_and_record rollback_id original = do
      apply_inverse original original.inverse_action
      after ← on_tv (client.package_state original.package_id)
      raise_if (not (after == original.before))
          (refusal "Rollback result does not match the recorded before-state")
      complete_operation rollback_id after Inverse.nothing
      on_journal host (λ now. finish_rollback now original.id rollback_id)

    unfoldable pub run_rollback : String → ℕ → Row → Exec (Manager W) (Unit {0})
    run_rollback task rollback_id original = reporting task "Rollback failed" (
        recording rollback_id (do
          report host task (progress "rolling-back" "Restoring recorded state" 50)
          restore_and_record rollback_id original
          report host task (progress "result" "Selected operation reverted" 100)))
