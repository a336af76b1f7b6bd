-- ===== src/Tests/Jobs.antt =====
-- The requests and the threads on a television with one package.
use tv_safety_cleaner.Prelude.{
  String, ◌≡◌, refl, true, false, some, String_discrete, ℕ_discrete, Bool_discrete, strip, [], ◌∷◌,
  lower, has_substring, ends_with, nat_eq, arith,
}
use tv_safety_cleaner.Exec.{ok, catch, ◌>>=◌}
use tv_safety_cleaner.Controller.Names.{
  parse_package_input, candidate_of, is_package_id, matches_from, safe_apk_filename,
}
use tv_safety_cleaner.Controller.Planner.{is_never_touch}
use tv_safety_cleaner.Controller.Journal.{
  Row, Journal, find_row, is_pending, complete, rowcount, update_at,
}
use tv_safety_cleaner.Controller.Tasks
use tv_safety_cleaner.Controller.Tasks.{is_task_id}
use tv_safety_cleaner.Controller.Jobs.Run.{
  run_set_enabled, reporting, recording, set_enabled_and_record, complete_operation,
}
use tv_safety_cleaner.Controller.Journal.Invariant.{IsValid}
use tv_safety_cleaner.Controller.Jobs.{resolve, find_apk, on_tv, on_journal, report}
use tv_safety_cleaner.Controller.Jobs.Start.{
  start_install, start_uninstall, start_update, start_set_enabled, start_rollback,
}
use tv_safety_cleaner.Controller.Jobs.Profiles.{start_profile_apply}
use tv_safety_cleaner.Controller.Jobs.Threads.{run_thread, body}
use tv_safety_cleaner.Controller.Jobs.Safety.{
  Refused, sideload_off, never_touch-Refused, never_touch_install,
}
use tv_safety_cleaner.Controller.Jobs.Outcomes.{run_thread_tidy, run_thread_resolves}
use tv_safety_cleaner.Tests.Data.{
  tv_host, manager_with, one_applied, a_task, a_package, plain_lib, disabling_thread, pending_row,
  applied_row,
}

sideload_off_example :
    Refused (start_install tv_host a_task a_package) (manager_with false one_applied)
    × Refused (start_uninstall tv_host a_task a_package) (manager_with false one_applied)
    × Refused (start_update tv_host a_task a_package) (manager_with false one_applied)
    × Refused (start_set_enabled tv_host a_task a_package true) (manager_with false one_applied)
    × Refused (start_rollback tv_host a_task 1) (manager_with false one_applied)
    × Refused (start_profile_apply tv_host a_task a_package) (manager_with false one_applied)
sideload_off_example =
    sideload_off tv_host a_task a_package true 1 (manager_with false one_applied) refl

abbrev settings_package : String
settings_package = "com.android.settings"

settings_is_read : parse_package_input plain_lib settings_package ≡ ok settings_package
unfolding parse_package_input candidate_of is_package_id matches_from ℕ_discrete strip
settings_is_read = refl

settings_is_protected : is_never_touch settings_package ≡ true
unfolding is_never_touch lower has_substring ℕ_discrete
settings_is_protected = refl

never_touch-Refused_example :
    Refused (start_uninstall tv_host a_task settings_package) (manager_with true one_applied)
    × Refused (start_update tv_host a_task settings_package) (manager_with true one_applied)
    × Refused
        (start_set_enabled tv_host a_task settings_package false)
        (manager_with true one_applied)
never_touch-Refused_example =
    never_touch-Refused tv_host a_task settings_package false settings_package
      (manager_with true one_applied) settings_is_read settings_is_protected

settings_archive_kept_out :
    Refused (start_install tv_host a_task "s-1.apk") (manager_with true one_applied)
settings_archive_kept_out =
    never_touch_install tv_host a_task "s-1.apk" "s-1.apk"
      (record { file = "s-1.apk"; package_id = settings_package; version_code = 1 })
      (manager_with true one_applied)
      (unfold resolve find_apk safe_apk_filename lower strip ends_with has_substring String_discrete
          ℕ_discrete in
        refl)
      (unfold find_apk String_discrete in refl) settings_is_read settings_is_protected

abbrev other_row : Row
other_row = record pending_row { id = 2; package_id = "org.example.other" }

abbrev two_pending : Journal
two_pending = record { rows = other_row ∷ pending_row ∷ []; next_id = 3 }

two_pending-IsValid : IsValid two_pending
two_pending-IsValid = ground arith

-- The thread has disabled the package and completed its own row only.
thread_ran :
    (run_thread tv_host disabling_thread (manager_with true two_pending)).journal.rows
    ≡ other_row ∷ applied_row ∷ []
unfolding run_thread body run_set_enabled reporting recording set_enabled_and_record
    complete_operation on_tv on_journal report catch ◌>>=◌ Tasks.update is_task_id complete rowcount
    update_at ℕ_discrete String_discrete Bool_discrete
thread_ran = refl

run_thread_tidy_example :
    IsValid (run_thread tv_host disabling_thread (manager_with true two_pending)).journal
    × (find_row 2 two_pending.rows ≡ some other_row)
run_thread_tidy_example =
    run_thread_tidy tv_host disabling_thread (manager_with true two_pending) 2 other_row
      two_pending-IsValid (rw thread_ran (unfold find_row ℕ_discrete in refl)) refl

run_thread_resolves_example : is_pending applied_row.status ≡ false
run_thread_resolves_example =
    run_thread_resolves tv_host disabling_thread (manager_with true two_pending) 1 applied_row
      two_pending-IsValid refl (rw thread_ran (unfold find_row ℕ_discrete in refl))
