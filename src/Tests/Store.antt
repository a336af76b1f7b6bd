-- ===== src/Tests/Store.antt =====
-- The task store, and the names that are accepted.
use tv_safety_cleaner.Prelude.{
  String, ◌≡◌, refl, true, [], ◌∷◌, ◌==◌, string_eq, if◌then◌else◌, String_discrete, ℕ_discrete,
  strip,
}
use tv_safety_cleaner.Prelude.Dict
use tv_safety_cleaner.Prelude.Dict.{lookup}
use tv_safety_cleaner.Prelude.Json.{num, str}
use tv_safety_cleaner.Exec.{ok}
use tv_safety_cleaner.Controller.Names.{
  is_package_id, parse_package_input, candidate_of, matches_from, parse_package_input-IsPackageId,
}
use tv_safety_cleaner.Controller.Tasks.{
  Task, Tasks, read, update, queued, stamped, is_task_id, matches_task_id, clear_finished,
}
use tv_safety_cleaner.Controller.Tasks.Laws.{read-update, Cleared, clear_finished_lem}
use tv_safety_cleaner.Tests.Data.{plain_lib, a_package, a_task}

abbrev a_queued : Task
a_queued = queued 7 a_task "install" a_package

abbrev other_task : String
other_task = "1700000001-0a1b2c3d"

abbrev some_tasks : Tasks
some_tasks = (a_task, a_queued) ∷ (other_task, ("stage", str "done") ∷ []) ∷ []

name_is_read : parse_package_input plain_lib "  org.example.app " ≡ ok a_package
unfolding parse_package_input candidate_of is_package_id matches_from ℕ_discrete strip
name_is_read = refl

parse_package_input-IsPackageId_example : is_package_id a_package ≡ true
parse_package_input-IsPackageId_example =
    parse_package_input-IsPackageId plain_lib "  org.example.app " a_package name_is_read

task_is_read : read a_task some_tasks ≡ ok a_queued
unfolding read is_task_id matches_task_id lookup String_discrete ℕ_discrete
task_is_read = refl

read-update_example : read other_task (update 9 a_task (("progress", num 35) ∷ []) some_tasks).1 ≡ (
    if a_task == other_task
    then ok (stamped 9 a_task (Dict.update (("progress", num 35) ∷ []) a_queued))
    else read other_task some_tasks)
read-update_example =
    read-update 9 a_task other_task (("progress", num 35) ∷ []) some_tasks a_queued task_is_read

clear_finished_lem_example :
    Cleared some_tasks (clear_finished some_tasks).1 (clear_finished some_tasks).0
clear_finished_lem_example = clear_finished_lem some_tasks
