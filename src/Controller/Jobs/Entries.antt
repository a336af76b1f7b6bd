-- ===== src/Controller/Jobs/Entries.antt =====
-- The journal entries of the manager: how each call of the journal fits the rules of `Tidy`, and the
-- handlers that record a failure.
use tv_safety_cleaner.Prelude.{ℕ, String, ◌≡◌, refl, ◌≢◌, true, some, nat_eq, arith}
use tv_safety_cleaner.Exec.{Exec, Result, ok, err, message, continue, ◌>>=◌}
use tv_safety_cleaner.Prelude.Dict.{Dict}
use tv_safety_cleaner.Prelude.Json.{Json}
use tv_safety_cleaner.Controller.Device.{PackageState}
use tv_safety_cleaner.Controller.Journal.{
  Journal, Row, Inverse, NewOperation, is_pending, begin, complete, fail, finish_rollback,
  reconcile_no_change, find_row, completed, failed, reverted_row, recorded_row, update_at,
  is_revertible, any_status, is_uncertain, reconciled_row,
}
use tv_safety_cleaner.Controller.Journal.Rows.{find_row-update_at, rowcount-eq}
use tv_safety_cleaner.Controller.Journal.Invariant.{
  IsValid, begin_call, complete_call, fail_call, finish_call, reconcile_call, call, call-IsValid,
}
use tv_safety_cleaner.Controller.Jobs.{Manager, Host, on_journal, report}
use tv_safety_cleaner.Controller.Jobs.Start.{begin_operation}
use tv_safety_cleaner.Controller.Jobs.Run.{recording, reporting, complete_operation}
use tv_safety_cleaner.Controller.Jobs.Tidy.{Tidy, Aside, Settles, Resolved, KeepsTidy}

module _ (now : String) (i : ℕ) (j : Journal) (valid : IsValid j) where
  complete-tidy :
      (after : PackageState) (inverse : Inverse) → KeepsTidy j (complete now i after inverse j).1
  complete-tidy after inverse = (
    unfold call in call-IsValid (complete_call now i after inverse) j valid,
    λ k r found pending.
        unfold complete in
        ground (
          arith,
          find_row-update_at i is_pending (completed now after inverse) (λ r. refl) k j.rows,
        ),
  )

  complete-Resolved :
      (after : PackageState) (inverse : Inverse)
      → (complete now i after inverse j).0 ≡ ok tt
      → Resolved i (complete now i after inverse j).1
  unfolding complete
  complete-Resolved after inverse h r found = ground (
    arith,
    rowcount-eq i j.next_id is_pending j.rows valid,
    find_row-update_at i is_pending (completed now after inverse) (λ r. refl) i j.rows,
  )

  fail-tidy : (error : String) → KeepsTidy j (fail now i error j).1
  fail-tidy error = (
    unfold call in call-IsValid (fail_call now i error) j valid,
    λ k r found pending.
        unfold fail in
        ground (arith, find_row-update_at i is_pending (failed now error) (λ r. refl) k j.rows),
  )

  fail-Resolved : (error : String) → Resolved i (fail now i error j).1
  unfolding fail
  fail-Resolved error r found =
      ground (arith, find_row-update_at i is_pending (failed now error) (λ r. refl) i j.rows)

  reconcile-tidy : KeepsTidy j (reconcile_no_change now i j).1
  reconcile-tidy = (
    unfold call in call-IsValid (reconcile_call now i) j valid,
    λ k r found pending.
        unfold reconcile_no_change in
        ground (arith, find_row-update_at i is_uncertain (reconciled_row now) (λ r. refl) k j.rows),
  )

  finish-tidy : (m : ℕ) → KeepsTidy j (finish_rollback now i m j).1
  finish-tidy m = (
    unfold call in call-IsValid (finish_call now i m) j valid,
    λ k r found pending.
        unfold finish_rollback in
        ground (
          arith,
          find_row-update_at m any_status recorded_row (λ r. refl) k
              (update_at i is_revertible (reverted_row now) j.rows),
          find_row-update_at i is_revertible (reverted_row now) (λ r. refl) k j.rows,
        ),
  )

  -- Only the new row is pending.
  begin-tidy :
      (new : NewOperation)
      → IsValid (begin now new j).1
        × ((k : ℕ) (r : Row)
            → find_row k (begin now new j).1.rows ≡ some r
            → is_pending r.status ≡ true
            → (begin now new j).0 ≢ ok k
            → find_row k j.rows ≡ some r)
  begin-tidy new = (
    unfold call in call-IsValid (begin_call now new) j valid,
    λ k r found pending other. unfold begin find_row in ground arith,
  )

-- However the action ends, the row `i` is not pending afterwards.
pub record Closes {W A : Type 0} (i : ℕ) (m : Exec (Manager W) A) : Type 0 where
  pub at : (s : Manager W) → IsValid s.journal → Resolved i (m s).1.journal

module _ {W : Type 0} (host : Host W) where
  pub Aside-report : (task : String) (changes : Dict Json) → Aside (report host task changes)
  Aside-report task changes = record { at = λ s. unfold report in refl }

  pub Tidy-complete :
      (i : ℕ) (after : PackageState) (inverse : Inverse)
      → Tidy (complete_operation host i after inverse)
  Tidy-complete i after inverse = record {
    at = λ s v.
        unfold complete_operation on_journal in
        complete-tidy (host.iso s.time) i s.journal v after inverse;
  }

  pub Settles-complete :
      (i : ℕ) (after : PackageState) (inverse : Inverse)
      → Settles i (complete_operation host i after inverse)
  Settles-complete i after inverse = record {
    at = λ s a v h.
        unfold complete_operation on_journal in
        complete-Resolved (host.iso s.time) i s.journal v after inverse h;
  }

  pub Tidy-finish : (i m : ℕ) → Tidy (on_journal host (λ now. finish_rollback now i m))
  Tidy-finish i m = record {
    at = λ s v. unfold on_journal in finish-tidy (host.iso s.time) i s.journal v m;
  }

  pub Tidy-reconcile : (i : ℕ) → Tidy (on_journal host (λ now. reconcile_no_change now i))
  Tidy-reconcile i = record {
    at = λ s v. unfold on_journal in reconcile-tidy (host.iso s.time) i s.journal v;
  }

  module _ {A : Type 0} (i : ℕ) where
    recorded :
        (j : Journal) (r : Result A) (s : Manager W)
        → KeepsTidy j s.journal
        → KeepsTidy j (recording host i (λ _. (r, s)) s).1.journal
    unfolding recording fail on_journal ◌>>=◌
    recorded j (ok a) s h = h
    recorded j (err e) s (v, p) =
        let (v', q) = fail-tidy (host.iso s.time) i s.journal v (message e) in
        (v', λ k r found pending. p k r (q k r found pending) pending)

    recorded_closed :
        (r : Result A) (s : Manager W)
        → IsValid s.journal
        → ((a : A) → r ≡ ok a → Resolved i s.journal)
        → Resolved i (recording host i (λ _. (r, s)) s).1.journal
    unfolding recording fail on_journal ◌>>=◌
    recorded_closed (ok a) s v h = h a refl
    recorded_closed (err e) s v h = fail-Resolved (host.iso s.time) i s.journal v (message e)

    pub Tidy-recording : (m : Exec (Manager W) A) → Tidy m → Tidy (recording host i m)
    Tidy-recording m h = record {
      at =
          λ s v. unfold recording on_journal ◌>>=◌ in recorded s.journal (m s).0 (m s).1 (h.at s v);
    }

    pub Closes-recording :
        (m : Exec (Manager W) A) → Tidy m → Settles i m → Closes i (recording host i m)
    Closes-recording m h settles = record {
      at = λ s v.
          unfold recording on_journal ◌>>=◌ in
          recorded_closed (m s).0 (m s).1 (h.at s v).0 (λ a e. settles.at s a v e);
    }

  module _ (task status : String) where
    reported :
        (j : Journal) (r : Result (Unit {0})) (s : Manager W)
        → s.journal ≡ j
        → (reporting host task status (λ _. (r, s)) s).1.journal ≡ j
    unfolding reporting report ◌>>=◌
    reported j (ok a) s e = e
    reported j (err x) s e = ground arith

    pub journal-reporting :
        (m : Exec (Manager W) (Unit {0})) (s : Manager W)
        → (reporting host task status m s).1.journal ≡ (m s).1.journal
    journal-reporting m s = unfold reporting ◌>>=◌ in reported (m s).1.journal (m s).0 (m s).1 refl

    pub Tidy-reporting :
        (m : Exec (Manager W) (Unit {0})) → Tidy m → Tidy (reporting host task status m)
    Tidy-reporting m h = record { at = λ s v. rw (journal-reporting m s) (h.at s v) }

    pub Closes-reporting :
        (i : ℕ) (m : Exec (Manager W) (Unit {0}))
        → Closes i m
        → Closes i (reporting host task status m)
    Closes-reporting i m h = record { at = λ s v. rw (journal-reporting m s) (h.at s v) }

  module _ {A : Type 0} where
    begun :
        (j : Journal) (f : ℕ → Exec (Manager W) A) (r : Result ℕ) (s : Manager W)
        → ((i : ℕ) → Tidy (f i))
        → ((i : ℕ) → Closes i (f i))
        → IsValid s.journal
        → ((k : ℕ) (x : Row)
            → find_row k s.journal.rows ≡ some x
            → is_pending x.status ≡ true
            → r ≢ ok k
            → find_row k j.rows ≡ some x)
        → KeepsTidy j (continue f (r, s)).1.journal
    begun j f (ok i) s tidy closes v only = (
      ((tidy i).at s v).0,
      λ k x found pending.
          let before = ((tidy i).at s v).1 k x found pending in
          only k x before pending (λ e. ground (arith, (closes i).at s v x)),
    )
    begun j f (err e) s tidy closes v only =
        (v, λ k x found pending. only k x found pending (λ p. cc p))

    -- An operation that is begun and whose thread closes it leaves nothing pending.
    pub Tidy-begin :
        (new : NewOperation) (f : ℕ → Exec (Manager W) A)
        → ((i : ℕ) → Tidy (f i))
        → ((i : ℕ) → Closes i (f i))
        → Tidy (begin_operation host new >>= f)
    Tidy-begin new f tidy closes = record {
      at = λ s v.
          unfold begin_operation on_journal ◌>>=◌ in
          let (v', only) = begin-tidy (host.iso s.time) 0 s.journal v new in
          begun s.journal f (begin (host.iso s.time) new s.journal).0 _ tidy closes v' only;
    }
