-- ===== src/Controller/Transactions/Records.antt =====
-- What `execute` leaves in the journal.
use tv_safety_cleaner.Prelude.{
  if◌then◌else◌, ℕ, suc, ◌+◌, String, ◌<>◌, ◌≡◌, refl, Bool, true, false, Option, none, some, List,
  [], ◌∷◌, arith,
}
use tv_safety_cleaner.Prelude.Dict.{Dict}
use tv_safety_cleaner.Exec.{Exec, ok, ◌>>=◌, bind-eq-ok}
use tv_safety_cleaner.Controller.Planner.{DryRunPlan, PlannedOperation}
use tv_safety_cleaner.Controller.Transactions.{
  OperationStatus, OperationRow, MutationAdapter, TransactionResult, Engine, operation_row,
  health_checks, check_health, conclude, execute_operations, execute, on_journal, on_outside, begin,
  record_operation, finish,
}
use tv_safety_cleaner.Controller.Transactions.Checks.{
  all_healthy, the_checks, Checked, check_health_lem, on_outside_lem, check_health-Checked,
}

-- A row that says that all four checks passed after the operation.
pub record IsApplied (operation : PlannedOperation) (row : OperationRow) : Type 0 where
  pub package_id : row.package_id ≡ operation.package_id
  pub action : row.action ≡ operation.action
  pub category : row.category ≡ operation.category
  pub status : row.status ≡ OperationStatus.applied
  pub health : row.health ≡ all_healthy
  pub kept : row.reverted_at ≡ none

-- A row that says that the operation was reverted after a check that failed.
pub record IsReverted (now : String) (operation : PlannedOperation) (row : OperationRow)
    : Type 0 where
  pub package_id : row.package_id ≡ operation.package_id
  pub action : row.action ≡ operation.action
  pub category : row.category ≡ operation.category
  pub status : row.status ≡ OperationStatus.failed
  pub undone : row.reverted_at ≡ some now

-- What a run does to the adapter's world and adds to a table, for how many operations, and whether it
-- stopped early.
pub data Recorded {W : Type 0} (adapter : MutationAdapter W) (now : String)
    : List PlannedOperation
      → W
      → List OperationRow
      → W
      → List OperationRow
      → ℕ
      → Bool
      → Type 0 where
  all_done : {w : W} {rows : List OperationRow} → Recorded adapter now [] w rows w rows 0 false
  one_failed :
      {operation : PlannedOperation} {operations : List PlannedOperation} {row : OperationRow}
      {rows : List OperationRow} {w v u last : W} {check : String}
      → adapter.apply operation w ≡ (ok tt, v)
      → Checked adapter the_checks v (some check) u
      → adapter.revert operation u ≡ (ok tt, last)
      → IsReverted now operation row
      → Recorded adapter now (operation ∷ operations) w rows last (row ∷ rows) 0 true
  one_applied :
      {operation : PlannedOperation} {operations : List PlannedOperation} {row : OperationRow}
      {rows after : List OperationRow} {w v u last : W} {n : ℕ} {stopped : Bool}
      → adapter.apply operation w ≡ (ok tt, v)
      → Checked adapter the_checks v none u
      → IsApplied operation row
      → Recorded adapter now operations u (row ∷ rows) last after n stopped
      → Recorded adapter now (operation ∷ operations) w rows last after (suc n) stopped

-- What a run over `operations` has done, if it began with `completed` behind it.
abbrev pub Outcome :
    {W : Type 0}
    → MutationAdapter W
    → String
    → ℕ
    → List PlannedOperation
    → W
    → Engine W
    → TransactionResult
    → Engine W
    → Type 0
Outcome adapter now completed operations w s r t =
    (n : ℕ) × (r.completed ≡ completed + n)
    × (r.attempted ≡ (if r.stopped then suc (completed + n) else completed + n))
    × Recorded adapter now operations w s.journal.operations t.outside t.journal.operations n
        r.stopped

module _ {W : Type 0} (adapter : MutationAdapter W) (now plan_id : String) where
  conclude-Outcome :
      (operation : PlannedOperation) (operations : List PlannedOperation) (completed : ℕ)
      (rest : Exec (Engine W) TransactionResult) (health : Dict Bool) (failing : Option String)
      (w v : W) (s : Engine W) {r : TransactionResult} {t : Engine W}
      → adapter.apply operation w ≡ (ok tt, v)
      → Checked adapter the_checks v failing s.outside
      → (failing ≡ none → health ≡ all_healthy)
      → ((u : Engine W) (r : TransactionResult) (t : Engine W)
          → rest u ≡ (ok r, t)
          → Outcome adapter now (suc completed) operations u.outside u r t)
      → conclude adapter now plan_id operation completed rest (health, failing) s ≡ (ok r, t)
      → Outcome adapter now completed (operation ∷ operations) w s r t
  unfolding conclude record_operation on_journal on_outside finish ◌>>=◌
  conclude-Outcome operation operations completed rest health none w v s {r} {t} ran made healthy
        onward h =
      let (n, a, b, c) = onward _ r t h in
      (
        suc n,
        omega arith,
        ground arith,
        one_applied ran made
            (record {
              package_id = refl;
              action = refl;
              category = refl;
              status = refl;
              health = healthy refl;
              kept = refl;
            })
            c,
      )
  conclude-Outcome operation operations completed rest health (some check) w v s {r} {t} ran made
        healthy onward h =
      let row =
        operation_row now plan_id s.journal.next_id operation OperationStatus.failed health
          ("health check failed: " <> check) true in
      let rows : t.journal.operations ≡ row ∷ s.journal.operations = ground arith in
      let stopped : r.stopped ≡ true = ground arith in
      let reverted : adapter.revert operation s.outside ≡ (ok tt, t.outside) = ground arith in
      (
        0,
        ground arith,
        ground arith,
        rw (rows, stopped)
            (one_failed ran made reverted (record {
              package_id = refl;
              action = refl;
              category = refl;
              status = refl;
              undone = refl;
            })),
      )

  execute_operations-Recorded :
      (completed : ℕ) (operations : List PlannedOperation) (s : Engine W) {r : TransactionResult}
      {t : Engine W}
      → execute_operations adapter now plan_id completed operations s ≡ (ok r, t)
      → Outcome adapter now completed operations s.outside s r t
  unfolding execute_operations on_outside on_journal finish ◌>>=◌
  execute_operations-Recorded completed [] s {r} {t} h =
      let rows : t.journal.operations ≡ s.journal.operations = ground arith in
      let stopped : r.stopped ≡ false = ground arith in
      let same : t.outside ≡ s.outside = ground arith in
      (0, ground arith, ground arith, rw (rows, stopped, same) all_done)
  execute_operations-Recorded completed (operation ∷ operations) s {r} {t} h =
      let rest = execute_operations adapter now plan_id (suc completed) operations in
      let checks = check_health adapter now health_checks [] in
      let (_, u, applied, h1) =
        bind-eq-ok (on_outside (adapter.apply operation))
          (λ _. checks >>= conclude adapter now plan_id operation completed rest) s h in
      let ((health, failing), v, checked, h2) =
        bind-eq-ok checks (conclude adapter now plan_id operation completed rest) u h1 in
      let (same, healthy) = check_health_lem adapter now u checked in
      let (ran, _) = on_outside_lem adapter now (adapter.apply operation) s applied in
      let made = check_health-Checked adapter now health_checks [] u checked in
      let outcome =
        conclude-Outcome operation operations completed rest health failing s.outside u.outside v
          ran made healthy
          (λ w a b k. execute_operations-Recorded (suc completed) operations w {r = a} {t = b} k)
          h2 in
      let back : s.journal.operations ≡ v.journal.operations = ground arith in rw back outcome

  -- A run that returns has, for each operation that it attempted and in the plan's order, let the adapter
  -- apply it and then make the four health checks in their order, and added one row: an applied one if
  -- all four passed; at the first check that failed the adapter has reverted the operation and the row
  -- is a reverted one, with which the run stopped. Nothing else was asked of the adapter. The result
  -- counts exactly these rows.
  pub execute-Recorded :
      (plan : DryRunPlan) (s : Engine W) {r : TransactionResult} {t : Engine W}
      → execute adapter now plan_id plan s ≡ (ok r, t)
      → Recorded adapter now plan.operations s.outside s.journal.operations t.outside
          t.journal.operations r.completed r.stopped
        × (r.attempted ≡ (if r.stopped then suc r.completed else r.completed))
  unfolding execute begin on_journal
  execute-Recorded plan s {r} {t} h =
      let (_, u, begun, h1) =
        bind-eq-ok (on_journal (begin now plan_id plan))
          (λ _. execute_operations adapter now plan_id 0 plan.operations) s h in
      let (n, completed, attempted, rows) = execute_operations-Recorded 0 plan.operations u h1 in
      let same : s.journal.operations ≡ u.journal.operations = ground arith in
      let world : s.outside ≡ u.outside = ground arith in
      let count : r.completed ≡ n = ground arith in (rw (same, world, count) rows, ground arith)
