-- ===== src/Controller/Journal/Invariant.antt =====
-- What every method of the journal keeps: ids are a key that is never reused, the evidence columns
-- of a row are never rewritten, and its status only moves along the diagram below.
use tv_safety_cleaner.Prelude.{
  ℕ, false, ◌≡◌, refl, ◌⊎◌, inl, inr, String, Option, none, some, List, [], ◌∷◌, arith,
}
use tv_safety_cleaner.Controller.Device.{PackageState}
use tv_safety_cleaner.Controller.Journal.{
  Status, pending, applied, uncertain, reconciled, reverted, rollback_recorded, Inverse, Row,
  Journal, NewOperation, begin, complete, fail, reconcile_no_change, finish_rollback, find_row,
  completed, failed, reconciled_row, reverted_row, recorded_row, is_pending, is_uncertain,
  is_revertible, any_status, not_applied, update_at,
}
use tv_safety_cleaner.Controller.Journal.Rows.{
  IsOrdered, find_row-update_at, update_at-IsOrdered, find_row-above,
}

-- A call of one of the methods that write.
pub data Call : Type 0 where
  begin_call : String → NewOperation → Call
  complete_call : String → ℕ → PackageState → Inverse → Call
  fail_call : String → ℕ → String → Call
  reconcile_call : String → ℕ → Call
  finish_call : String → ℕ → ℕ → Call

unfoldable pub call : Call → Journal → Journal
unfolding begin complete fail reconcile_no_change finish_rollback
call (begin_call now new) j = (begin now new j).1
call (complete_call now i after inverse) j = (complete now i after inverse j).1
call (fail_call now i error) j = (fail now i error j).1
call (reconcile_call now i) j = (reconcile_no_change now i j).1
call (finish_call now i k) j = (finish_rollback now i k j).1

unfoldable pub calls : List Call → Journal → Journal
calls [] j = j
calls (c ∷ cs) j = calls cs (call c j)

abbrev pub IsValid : Journal → Type 0
IsValid j = IsOrdered j.next_id j.rows

infix 40 ◌⟶◌ ◌⟶*◌
pub data ◌⟶◌ : Status → Status → Type 0 where
  apply : pending ⟶ applied
  lose : pending ⟶ uncertain
  reconcile : uncertain ⟶ reconciled
  revert_applied : applied ⟶ reverted
  revert_uncertain : uncertain ⟶ reverted
  record_rollback : applied ⟶ rollback_recorded

-- The columns that no UPDATE names.
pub record SameEvidence (r s : Row) : Type 0 where
  pub id : r.id ≡ s.id
  pub package_id : r.package_id ≡ s.package_id
  pub action : r.action ≡ s.action
  pub before : r.before ≡ s.before
  pub device : r.device ≡ s.device
  pub before_apk : r.before_apk ≡ s.before_apk
  pub after_apk : r.after_apk ≡ s.after_apk
  pub batch_id : r.batch_id ≡ s.batch_id
  pub parent_id : r.parent_id ≡ s.parent_id
  pub created_at : r.created_at ≡ s.created_at

abbrev pub Evolves : Row → Row → Type 0
Evolves r s = (r ≡ s) ⊎ ((r.status ⟶ s.status) × SameEvidence r s)

abbrev pub RowEvolves : Option Row → Option Row → Type 0
RowEvolves none _ = Unit
RowEvolves (some r) none = ⊥
RowEvolves (some r) (some s) = Evolves r s

-- Every method call keeps the ids in strictly falling order below the next one.
pub call-IsValid : (c : Call) (j : Journal) → IsValid j → IsValid (call c j)
unfolding call
call-IsValid (begin_call now new) j h = ground arith
call-IsValid (complete_call now i after inverse) j h = ground (
  arith,
  update_at-IsOrdered i is_pending (completed now after inverse) (λ r. refl) j.next_id j.rows,
)
call-IsValid (fail_call now i error) j h =
    ground (arith, update_at-IsOrdered i is_pending (failed now error) (λ r. refl) j.next_id j.rows)
call-IsValid (reconcile_call now i) j h =
    ground
      (arith, update_at-IsOrdered i is_uncertain (reconciled_row now) (λ r. refl) j.next_id j.rows)
call-IsValid (finish_call now i k) j h = ground (
  arith,
  update_at-IsOrdered k any_status recorded_row (λ r. refl) j.next_id
      (update_at i is_revertible (reverted_row now) j.rows),
  update_at-IsOrdered i is_revertible (reverted_row now) (λ r. refl) j.next_id j.rows,
)

-- The marks of `finish_rollback`, when it is not refused.
finish_marks :
    (now : String) (i m : ℕ) (j : Journal) (k : ℕ)
    → not_applied (find_row m (update_at i is_revertible (reverted_row now) j.rows)) ≡ false
    → RowEvolves (find_row k j.rows) (
        find_row k (
          update_at m any_status recorded_row
            (update_at i is_revertible (reverted_row now) j.rows)))
finish_marks now i m j k h = grind (
  arith,
  revert_applied,
  revert_uncertain,
  record_rollback,
  find_row-update_at m any_status recorded_row (λ r. refl) k
      (update_at i is_revertible (reverted_row now) j.rows),
  find_row-update_at i is_revertible (reverted_row now) (λ r. refl) k j.rows,
)

RowEvolves-refl : (o : Option Row) → RowEvolves o o
RowEvolves-refl none = tt
RowEvolves-refl (some r) = inl refl

-- One call leaves a row as it is, or moves its status along one arrow and keeps its evidence.
pub call-Evolves :
    (c : Call) (j : Journal) (k : ℕ)
    → IsValid j
    → RowEvolves (find_row k j.rows) (find_row k (call c j).rows)
unfolding call find_row
call-Evolves (begin_call now new) j k h =
    grind (arith, RowEvolves-refl (find_row k j.rows), find_row-above k j.next_id j.rows h)
call-Evolves (complete_call now i after inverse) j k h = grind (
  arith,
  RowEvolves-refl (find_row k j.rows),
  apply,
  find_row-update_at i is_pending (completed now after inverse) (λ r. refl) k j.rows,
)
call-Evolves (fail_call now i error) j k h =
    grind (arith, lose, find_row-update_at i is_pending (failed now error) (λ r. refl) k j.rows)
call-Evolves (reconcile_call now i) j k h = grind (
  arith,
  RowEvolves-refl (find_row k j.rows),
  reconcile,
  find_row-update_at i is_uncertain (reconciled_row now) (λ r. refl) k j.rows,
)
call-Evolves (finish_call now i m) j k h =
    grind (arith, RowEvolves-refl (find_row k j.rows), finish_marks now i m j k)

-- What the journal may do to a row over any number of calls.
pub data ◌⟶*◌ : Status → Status → Type 0 where
  stay : {s : Status} → s ⟶* s
  move : {s t u : Status} → s ⟶ t → t ⟶* u → s ⟶* u

Evolves-trans :
    (r s t : Row)
    → Evolves r s
    → (s.status ⟶* t.status) × SameEvidence s t
    → (r.status ⟶* t.status) × SameEvidence r t
Evolves-trans r s t (inl e) h = rw e h
Evolves-trans r s t (inr (step, same)) (path, h) = (move step path, ground arith)

RowEvolves-some :
    {r : Row} (o : Option Row) → RowEvolves (some r) o → (s : Row) × (o ≡ some s) × Evolves r s
RowEvolves-some none h = absurd h
RowEvolves-some (some s) h = (s, refl, h)

-- Whatever methods are called, in whatever order, a row that was ever written is still found under
-- its id, with the same evidence, and its status has followed the diagram.
pub calls-Evolve :
    (cs : List Call) (j : Journal) (k : ℕ) {r : Row}
    → IsValid j
    → find_row k j.rows ≡ some r
    → (s : Row) × (find_row k (calls cs j).rows ≡ some s)
      × (r.status ⟶* s.status)
      × SameEvidence r s
unfolding calls
calls-Evolve [] j k {r} h e = (r, e, stay, ground arith)
calls-Evolve (c ∷ cs) j k {r} h e =
    let (s, found, one) =
      RowEvolves-some (find_row k (call c j).rows) (rw e at (call-Evolves c j k h)) in
    let (t, last, path, same) = calls-Evolve cs (call c j) k (call-IsValid c j h) found in
    let (whole, kept) = Evolves-trans r s t one (path, same) in (t, last, whole, kept)

abbrev pub IsSettled : Status → Type 0
IsSettled reconciled = Unit
IsSettled reverted = Unit
IsSettled rollback_recorded = Unit
IsSettled _ = ⊥

no_step-settled : {s t : Status} → s ⟶ t → IsSettled s → ⊥
no_step-settled apply h = h
no_step-settled lose h = h
no_step-settled reconcile h = h
no_step-settled revert_applied h = h
no_step-settled revert_uncertain h = h
no_step-settled record_rollback h = h

Evolves-settled : (r s : Row) → IsSettled r.status → Evolves r s → r ≡ s
Evolves-settled r s h (inl e) = e
Evolves-settled r s h (inr (step, _)) = absurd (no_step-settled step h)

-- A reconciled, reverted or recorded row is final: no later call changes any column of it.
pub calls-settled :
    (cs : List Call) (j : Journal) (k : ℕ) {r : Row}
    → IsValid j
    → find_row k j.rows ≡ some r
    → IsSettled r.status
    → find_row k (calls cs j).rows ≡ some r
unfolding calls
calls-settled [] j k h e settled = e
calls-settled (c ∷ cs) j k {r} h e settled =
    let (s, found, one) =
      RowEvolves-some (find_row k (call c j).rows) (rw e at (call-Evolves c j k h)) in
    calls-settled cs (call c j) k (call-IsValid c j h) (rw (Evolves-settled r s settled one) found)
      settled
