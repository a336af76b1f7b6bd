-- ===== src/Controller/Transactions/Rollback.antt =====
-- What the engine's `rollback` leaves to be rolled back.
use tv_safety_cleaner.Prelude.{
  ℕ, suc, ◌+◌, String, ◌≡◌, refl, ◌∙◌, Bool, true, false, List, [], ◌∷◌, map, not, ◌==◌, nat_eq,
  length, select, All, ◌||◌, arith,
}
use tv_safety_cleaner.Exec.{ok, ◌>>=◌}
use tv_safety_cleaner.Controller.Transactions.{
  OperationRow, MutationAdapter, Engine, is_candidate, rollback_candidates, marked, mark_reverted,
  on_journal, on_outside, revert_all, rollback, operation_of,
}

abbrev drop_id : ℕ → List OperationRow → List OperationRow
drop_id i rows = select (λ row. not (row.id == i)) rows

-- Marking an id takes it off the candidates.
candidates-marked :
    (now : String) (i : ℕ) (rows : List OperationRow)
    → select is_candidate (map (marked now i) rows) ≡ drop_id i (select is_candidate rows)
candidates-marked now i [] = refl
candidates-marked now i (row ∷ rows) = ground (arith, candidates-marked now i rows)

-- The rows whose ids are not among those of `done`.
abbrev left_of : List OperationRow → List OperationRow → List OperationRow
left_of [] rows = rows
left_of (d ∷ done) rows = left_of done (drop_id d.id rows)

abbrev is_listed : ℕ → List OperationRow → Bool
is_listed i [] = false
is_listed i (d ∷ done) = i == d.id || is_listed i done

abbrev IsCovered : List OperationRow → List OperationRow → Type 0
IsCovered done rows = All (λ row. is_listed row.id done ≡ true) rows

drop_id-IsCovered :
    (d : OperationRow) (done rows : List OperationRow)
    → IsCovered (d ∷ done) rows
    → IsCovered done (drop_id d.id rows)
drop_id-IsCovered d done [] h = tt
drop_id-IsCovered d done (row ∷ rows) h = ground (arith, drop_id-IsCovered d done rows h.1)

left_of-IsCovered : (done rows : List OperationRow) → IsCovered done rows → left_of done rows ≡ []
left_of-IsCovered [] [] h = refl
left_of-IsCovered [] (row ∷ rows) h = cc h.0
left_of-IsCovered (d ∷ done) rows h =
    left_of-IsCovered done (drop_id d.id rows) (drop_id-IsCovered d done rows h)

cons-IsCovered :
    (d : OperationRow) (done rows : List OperationRow)
    → IsCovered done rows
    → IsCovered (d ∷ done) rows
cons-IsCovered d done [] h = tt
cons-IsCovered d done (row ∷ rows) h = ground (arith, cons-IsCovered d done rows h.1)

refl-IsCovered : (rows : List OperationRow) → IsCovered rows rows
refl-IsCovered [] = tt
refl-IsCovered (row ∷ rows) = (ground arith, cons-IsCovered row rows rows (refl-IsCovered rows))

module _ {W : Type 0} (adapter : MutationAdapter W) (now : String) where
  revert_all-left_of :
      (count : ℕ) (rows : List OperationRow) (s : Engine W) {n : ℕ} {t : Engine W}
      → revert_all adapter now count rows s ≡ (ok n, t)
      → (n ≡ count + length rows)
        × (select is_candidate t.journal.operations
            ≡ left_of rows (select is_candidate s.journal.operations))
  unfolding revert_all on_outside on_journal mark_reverted ◌>>=◌
  revert_all-left_of count [] s {n} {t} h = ground arith
  revert_all-left_of count (row ∷ rows) s {n} {t} h = ground (
    arith,
    candidates-marked now row.id s.journal.operations,
    revert_all-left_of (suc count) rows
        (record s {
          outside = (adapter.revert (operation_of row) s.outside).1;
          journal = (mark_reverted now row.id s.journal).1;
        })
        {n = n} {t = t},
  )

  -- After a rollback that returns no recorded operation is left to be rolled back, and the number that
  -- it returns is how many there were.
  pub rollback_lem :
      (s : Engine W) {n : ℕ} {t : Engine W}
      → rollback adapter now s ≡ (ok n, t)
      → (n ≡ length (rollback_candidates s.journal)) × (rollback_candidates t.journal ≡ [])
  unfolding rollback rollback_candidates
  rollback_lem s {n} {t} h =
      let found = select is_candidate s.journal.operations in
      let (count, left) = revert_all-left_of 0 found s h in
      (ground arith, left ∙ left_of-IsCovered found found (refl-IsCovered found))
