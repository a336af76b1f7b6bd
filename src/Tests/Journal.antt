-- ===== src/Tests/Journal.antt =====
-- The journal on a package that is disabled and then enabled again.
use tv_safety_cleaner.Prelude.{
  ◌≡◌, ◌≢◌, ◌↔◌, refl, none, some, List, [], ◌∷◌, true, false, nat_eq, String_discrete, ℕ_discrete,
  Bool_discrete, arith,
}
use tv_safety_cleaner.Exec.{ok, err, refusal}
use tv_safety_cleaner.Controller.Device.{DeviceIdentity_discrete, PackageState_discrete}
use tv_safety_cleaner.Controller.Journal.{
  Status, Inverse, Row, begin, complete, fail, find_row, finish_rollback,
  prepare_selective_rollback, latest_unresolved, rowcount, update_at, has_newer, check_rollback,
  get, reconcile_no_change,
}
use tv_safety_cleaner.Controller.Journal.Invariant.{
  Call, call, complete_call, finish_call, begin_call, calls, calls-Evolve, calls-settled, ◌⟶*◌,
  SameEvidence, IsValid,
}
use tv_safety_cleaner.Controller.Journal.Selective.{
  prepare_iff, IsRevertible, NoUnresolved, Begun, begin_exclusive, begin_unresolved, CanFinish,
  finish_iff, finish_effect, finished, failed_rollback_blocks,
}
use tv_safety_cleaner.Tests.Data.{
  a_device, state_with, disabling, reverting, pending_row, applied_row, applied_rollback,
  failed_rollback, one_pending, one_applied, rolled_back, locked,
}

abbrev whole_story : List Call
whole_story =
    complete_call "t" 1 (state_with false) Inverse.enable
    ∷ begin_call "t" reverting
    ∷ complete_call "t" 2 (state_with true) Inverse.nothing
    ∷ finish_call "t" 1 2
    ∷ []

one_pending-IsValid : IsValid one_pending
one_pending-IsValid = ground arith

one_applied-IsValid : IsValid one_applied
one_applied-IsValid = ground arith

rolled_back-IsValid : IsValid rolled_back
rolled_back-IsValid = ground arith

locked-IsValid : IsValid locked
locked-IsValid = ground arith

first_pending : find_row 1 one_pending.rows ≡ some pending_row
unfolding find_row ℕ_discrete
first_pending = refl

-- The row ends as reverted.
story_ends :
    (calls whole_story one_pending).rows
    ≡ (record applied_rollback { status = Status.rollback_recorded })
      ∷ (record applied_row { status = Status.reverted })
      ∷ []
unfolding calls call begin complete fail reconcile_no_change finish_rollback find_row rowcount
    update_at latest_unresolved ℕ_discrete String_discrete
story_ends = refl

calls-Evolve_example :
    (s : Row) × (find_row 1 (calls whole_story one_pending).rows ≡ some s)
    × (Status.pending ⟶* s.status)
    × SameEvidence pending_row s
calls-Evolve_example = calls-Evolve whole_story one_pending 1 one_pending-IsValid first_pending

calls-settled_example :
    find_row 2
      (calls whole_story (record {
        rows = (record applied_row { id = 2; status = Status.reverted }) ∷ [];
        next_id = 3;
      })).rows
    ≡ some (record applied_row { id = 2; status = Status.reverted })
calls-settled_example =
    calls-settled whole_story
      (record {
        rows = (record applied_row { id = 2; status = Status.reverted }) ∷ [];
        next_id = 3;
      })
      2 (ground arith) (unfold find_row ℕ_discrete in refl) tt

prepare_iff_example :
    (prepare_selective_rollback 1 (state_with false) a_device one_applied ≡ ok applied_row)
    ↔ IsRevertible one_applied 1 (state_with false) a_device applied_row
prepare_iff_example =
    prepare_iff 1 (state_with false) a_device one_applied applied_row one_applied-IsValid

prepare_accepts :
    prepare_selective_rollback 1 (state_with false) a_device one_applied ≡ ok applied_row
unfolding prepare_selective_rollback check_rollback get find_row has_newer ℕ_discrete
    String_discrete Bool_discrete DeviceIdentity_discrete PackageState_discrete
prepare_accepts = refl

begin_exclusive_example :
    NoUnresolved disabling.package_id one_applied.rows
    × (find_row 2 one_applied.rows ≡ none)
    × Begun "u" disabling 2 one_applied (begin "u" disabling one_applied).1
begin_exclusive_example =
    begin_exclusive "u" disabling one_applied 2 one_applied-IsValid refl
      (unfold begin latest_unresolved ℕ_discrete String_discrete in refl)

begin_unresolved_example :
    begin "u" disabling one_pending
    ≡ (err (refusal "this package already has an unfinished or uncertain operation"), one_pending)
begin_unresolved_example =
    begin_unresolved "u" disabling one_pending 1 pending_row first_pending refl refl refl

finishes : (finish_rollback "u" 1 2 rolled_back).0 ≡ ok tt
unfolding finish_rollback find_row rowcount update_at ℕ_discrete
finishes = refl

finish_iff_example :
    ((finish_rollback "u" 1 2 rolled_back).0 ≡ ok tt) ↔ CanFinish 1 2 rolled_back.rows
finish_iff_example = finish_iff "u" 1 2 rolled_back rolled_back-IsValid

finish_effect_example :
    find_row 1 (finish_rollback "u" 1 2 rolled_back).1.rows
    ≡ finished "u" 1 2 1 (find_row 1 rolled_back.rows)
finish_effect_example = finish_effect "u" 1 2 rolled_back rolled_back-IsValid 1 finishes

-- Here the original is marked before the refusal, and the transaction takes that back.
refused_finish : (finish_rollback "u" 1 2 locked).1 ≡ locked
unfolding finish_rollback find_row rowcount update_at ℕ_discrete
refused_finish = refl

failed_rollback_blocks_example :
    (prepare_selective_rollback 1 (state_with false) a_device locked ≢ ok applied_row)
    × (begin "u" disabling locked
        ≡ (err (refusal "this package already has an unfinished or uncertain operation"), locked))
failed_rollback_blocks_example =
    failed_rollback_blocks locked 2 failed_rollback 1 applied_row (state_with false) a_device "u"
      disabling locked-IsValid (unfold find_row ℕ_discrete in refl) refl refl refl (omega arith)
      refl refl
