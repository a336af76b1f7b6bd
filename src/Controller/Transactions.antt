-- ===== src/Controller/Transactions.antt =====
-- tv_controller/transactions.py: the journal of plans and operations, and the engine that applies a
-- plan with a health check after every operation. `W` is what the adapter changes. The two tables are
-- lists with the newest row first; the rows' ids are handed out in order, as no row is deleted. All
-- readings of the clock in one call are one text, `now`.
pub mod Checks
pub mod Records
pub mod Rollback
use tv_safety_cleaner.Prelude.{
  ℕ, suc, String, ◌<>◌, Bool, true, false, Option, none, some, List, [], ◌∷◌, map, ◌&&◌, ◌==◌,
  nat_eq, string_eq, if◌then◌else◌, any, select,
}
use tv_safety_cleaner.Prelude.Dict.{Dict, insert}
use tv_safety_cleaner.Exec.{Exec, Result, ok, err, refusal, pure, ◌>>=◌, ◌>>◌}
use tv_safety_cleaner.Controller.Planner.{DryRunPlan, PackageCategory, PlannedOperation}

abbrev pub health_checks : List String
health_checks = "adb" ∷ "launcher" ∷ "settings" ∷ "network" ∷ []

pub record MutationAdapter (W : Type 0) : Type 0 where
  pub apply : PlannedOperation → Exec W (Unit {0})
  pub health : String → Exec W Bool
  pub revert : PlannedOperation → Exec W (Unit {0})

pub record TransactionResult : Type 0 where
  pub attempted : ℕ
  pub completed : ℕ
  pub stopped : Bool
  pub reason : String

pub data PlanStatus : Type 0 where
  running complete failed : PlanStatus

pub record PlanRow : Type 0 where
  pub id : String
  pub profile_id : String
  pub fingerprint : String
  pub status : PlanStatus
  pub retry_allowed : Bool
  pub created_at : String

pub data OperationStatus : Type 0 where
  applied failed : OperationStatus

pub record OperationRow : Type 0 where
  pub id : ℕ
  pub plan_id : String
  pub package_id : String
  pub action : String
  pub category : PackageCategory
  pub status : OperationStatus
  pub health : Dict Bool
  pub error : String
  pub created_at : String
  pub reverted_at : Option String

pub record OperationJournal : Type 0 where
  pub plans : List PlanRow
  pub operations : List OperationRow
  pub next_id : ℕ

-- The engine's journal, and the world of its adapter.
pub record Engine (W : Type 0) : Type 0 where
  pub outside : W
  pub journal : OperationJournal

abbrev new_plan : String → String → DryRunPlan → PlanRow
new_plan now plan_id plan = record {
  id = plan_id;
  profile_id = plan.profile_id;
  fingerprint = plan.snapshot_fingerprint;
  status = PlanStatus.running;
  retry_allowed = true;
  created_at = now;
}

-- The primary key refuses a second plan of the same id.
unfoldable pub begin : String → String → DryRunPlan → Exec OperationJournal (Unit {0})
begin now plan_id plan j =
    if any (λ row. row.id == plan_id) j.plans
    then (err (refusal "plan identifier already exists; automatic retry prohibited"), j)
    else (ok tt, record j { plans = new_plan now plan_id plan ∷ j.plans })

-- The row that `record` inserts.
abbrev pub operation_row :
    String
    → String
    → ℕ
    → PlannedOperation
    → OperationStatus
    → Dict Bool
    → String
    → Bool
    → OperationRow
operation_row now plan_id i operation status health error reverted = record {
  id = i;
  plan_id = plan_id;
  package_id = operation.package_id;
  action = operation.action;
  category = operation.category;
  status = status;
  health = health;
  error = error;
  created_at = now;
  reverted_at = if reverted then some now else none;
}

unfoldable pub record_operation :
    String
    → String
    → PlannedOperation
    → OperationStatus
    → Dict Bool
    → String
    → Bool
    → Exec OperationJournal (Unit {0})
record_operation now plan_id operation status health error reverted j = (
  ok tt,
  record j {
    operations =
        operation_row now plan_id j.next_id operation status health error reverted ∷ j.operations;
    next_id = suc j.next_id;
  },
)

abbrev finished_plan : String → PlanStatus → Bool → PlanRow → PlanRow
finished_plan plan_id status retry_allowed row =
    if row.id == plan_id then record row { status = status; retry_allowed = retry_allowed } else row

unfoldable pub finish : String → PlanStatus → Bool → Exec OperationJournal (Unit {0})
finish plan_id status retry_allowed j =
    (ok tt, record j { plans = map (finished_plan plan_id status retry_allowed) j.plans })

abbrev pub is_candidate : OperationRow → Bool
is_candidate row = elim row.status [
  | applied ↦ elim row.reverted_at [ none ↦ true | some _ ↦ false ]
  | failed ↦ false
]

unfoldable pub rollback_candidates : OperationJournal → List OperationRow
rollback_candidates j = select is_candidate j.operations

abbrev pub marked : String → ℕ → OperationRow → OperationRow
marked now i row = elim row.reverted_at [
  | none ↦ if row.id == i then record row { reverted_at = some now } else row
  | some _ ↦ row
]

unfoldable pub mark_reverted : String → ℕ → Exec OperationJournal (Unit {0})
mark_reverted now i j = (ok tt, record j { operations = map (marked now i) j.operations })

module _ {W A : Type 0} where
  unfoldable pub on_outside : Exec W A → Exec (Engine W) A
  on_outside m s = ((m s.outside).0, record s { outside = (m s.outside).1 })

  unfoldable pub on_journal : Exec OperationJournal A → Exec (Engine W) A
  on_journal m s = ((m s.journal).0, record s { journal = (m s.journal).1 })

-- The operation that `rollback` makes of a row.
abbrev pub operation_of : OperationRow → PlannedOperation
operation_of row = record {
  package_id = row.package_id;
  category = row.category;
  action = row.action;
}

module _ {W : Type 0} (adapter : MutationAdapter W) (now : String) where
  -- The checks in their order up to the first that fails, with that one.
  unfoldable pub check_health :
      List String → Dict Bool → Exec (Engine W) (Dict Bool × Option String)
  unfolding insert
  check_health [] health = pure (health, none)
  check_health (check ∷ checks) health = do
    healthy ← on_outside (adapter.health check)
    if healthy
        then check_health checks (insert check true health)
        else pure (insert check false health, some check)

  -- What follows the checks of one operation: the failure, or the rest of the plan.
  unfoldable pub conclude :
      String
      → PlannedOperation
      → ℕ
      → Exec (Engine W) TransactionResult
      → Dict Bool × Option String
      → Exec (Engine W) TransactionResult
  conclude plan_id operation completed rest (health, none) = do
    on_journal (record_operation now plan_id operation OperationStatus.applied health "" false)
    rest
  conclude plan_id operation completed rest (health, some check) = do
    on_outside (adapter.revert operation)
    on_journal (
        record_operation now plan_id operation OperationStatus.failed health
          ("health check failed: " <> check) true)
    on_journal (finish plan_id PlanStatus.failed false)
    pure (record {
      attempted = suc completed;
      completed = completed;
      stopped = true;
      reason = "failed: " <> check;
    })

  -- The loop over the plan, with the number of operations completed so far.
  unfoldable pub execute_operations :
      String → ℕ → List PlannedOperation → Exec (Engine W) TransactionResult
  unfolding check_health
  execute_operations plan_id completed [] = do
    on_journal (finish plan_id PlanStatus.complete false)
    pure (record {
      attempted = completed;
      completed = completed;
      stopped = false;
      reason = "complete";
    })
  execute_operations plan_id completed (operation ∷ operations) = do
    on_outside (adapter.apply operation)
    checked ← check_health health_checks []
    conclude plan_id operation completed (execute_operations plan_id (suc completed) operations)
        checked

  unfoldable pub execute : String → DryRunPlan → Exec (Engine W) TransactionResult
  execute plan_id plan = do
    on_journal (begin now plan_id plan)
    execute_operations plan_id 0 plan.operations

  -- The loop of `rollback` over the candidates that it read first.
  unfoldable pub revert_all : ℕ → List OperationRow → Exec (Engine W) ℕ
  revert_all count [] = pure count
  revert_all count (row ∷ rows) = do
    on_outside (adapter.revert (operation_of row))
    on_journal (mark_reverted now row.id)
    revert_all (suc count) rows

  unfoldable pub rollback : Exec (Engine W) ℕ
  unfolding rollback_candidates
  rollback s = revert_all 0 (rollback_candidates s.journal) s
