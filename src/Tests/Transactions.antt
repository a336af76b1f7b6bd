-- ===== src/Tests/Transactions.antt =====
-- A plan of two operations; the second breaks the television's network until it is reverted.
use tv_safety_cleaner.Prelude.{
  suc, ◌≡◌, refl, Bool, true, false, [], ◌∷◌, not, ◌==◌, string_eq, ◌&&◌, length, String_discrete,
  ℕ_discrete,
}
use tv_safety_cleaner.Prelude.Dict.{insert}
use tv_safety_cleaner.Exec.{ok, ◌>>=◌}
use tv_safety_cleaner.Controller.Planner.{DryRunPlan, planned}
use tv_safety_cleaner.Controller.Transactions.{
  MutationAdapter, TransactionResult, Engine, execute, execute_operations, check_health, conclude,
  begin, record_operation, finish, rollback, revert_all, rollback_candidates, mark_reverted,
  on_outside, on_journal,
}
use tv_safety_cleaner.Controller.Transactions.Records.{Recorded, execute-Recorded}
use tv_safety_cleaner.Controller.Transactions.Rollback.{rollback_lem}

-- The world is whether the network has been broken.
abbrev tv_adapter : MutationAdapter Bool
tv_adapter = record {
  apply = λ operation broken. (ok tt, operation.package_id == "org.b.net");
  health = λ check broken. (ok (not (broken && check == "network")), broken);
  revert = λ operation broken. (ok tt, false);
}

abbrev two_steps : DryRunPlan
two_steps = record {
  profile_id = "m-1";
  snapshot_fingerprint = "P";
  operations = planned "org.a.ads" ∷ planned "org.b.net" ∷ [];
  restore_plan = [];
  mutating_calls = 0;
  mode = "dry-run";
}

abbrev fresh : Engine Bool
fresh = record { outside = false; journal = record { plans = []; operations = []; next_id = 1 } }

abbrev stopped_result : TransactionResult
stopped_result = record { attempted = 2; completed = 1; stopped = true; reason = "failed: network" }

abbrev executed : Engine Bool
executed = (execute tv_adapter "t" "plan" two_steps fresh).1

run_stops : execute tv_adapter "t" "plan" two_steps fresh ≡ (ok stopped_result, executed)
unfolding execute execute_operations check_health conclude begin record_operation finish on_outside
    on_journal insert String_discrete ℕ_discrete ◌>>=◌
run_stops = refl

execute-Recorded_example :
    Recorded tv_adapter "t" two_steps.operations false [] executed.outside
      executed.journal.operations 1 true
    × (2 ≡ suc 1)
execute-Recorded_example =
    execute-Recorded tv_adapter "t" "plan" two_steps fresh {r = stopped_result} {t = executed}
      run_stops

abbrev rolled_back : Engine Bool
rolled_back = (rollback tv_adapter "u" executed).1

one_is_reverted : rollback tv_adapter "u" executed ≡ (ok 1, rolled_back)
unfolding rollback revert_all rollback_candidates mark_reverted execute execute_operations
    check_health conclude begin record_operation finish on_outside on_journal insert String_discrete
    ℕ_discrete ◌>>=◌
one_is_reverted = refl

rollback_lem_example :
    (1 ≡ length (rollback_candidates executed.journal))
    × (rollback_candidates rolled_back.journal ≡ [])
rollback_lem_example =
    rollback_lem tv_adapter "u" executed {n = 1} {t = rolled_back} one_is_reverted
