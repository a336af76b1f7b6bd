-- ===== src/Controller/Journal.antt =====
-- `StateJournal` of tv_controller/state_history.py. The table is a list of rows with the newest
-- first, which is the order of `ORDER BY id DESC`. Each method is one SQLite transaction: an
-- exception inside `with connection` rolls it back. The time that `_now()` reads is an argument,
-- and the JSON columns hold the values that they encode.
pub mod Rows
pub mod Invariant
pub mod Selective
use tv_safety_cleaner.Prelude.{
  ℕ, suc, ◌+◌, String, Bool, true, false, Option, none, some, List, [], ◌∷◌, ◌&&◌, ◌||◌, not, ◌==◌,
  nat_eq, string_eq, ltb, if◌then◌else◌, prefix_of,
}
use tv_safety_cleaner.Exec.{Exec, Result, ok, err, Error, refusal, chain, refuse_if, ◌>>=◌, ◌>>◌}
use tv_safety_cleaner.Controller.Device.{DeviceIdentity, PackageState, device_eq, state_eq}

pub data Status : Type 0 where
  pending applied uncertain reconciled reverted rollback_recorded : Status

pub data Action : Type 0 where
  install update uninstall enable disable : Action
  profile_install profile_update profile_enable profile_disable : Action
  rollback : Action → Action

-- The texts of the column `inverse_action`; `nothing` is the empty one.
pub data Inverse : Type 0 where
  nothing uninstall install_apk restore_apk enable disable : Inverse

pub record Row : Type 0 where
  pub id : ℕ
  pub package_id : String
  pub action : Action
  pub status : Status
  pub inverse_action : Inverse
  pub before : PackageState
  pub after : Option PackageState
  pub device : DeviceIdentity
  pub before_apk : String
  pub after_apk : String
  pub batch_id : String
  pub parent_id : Option ℕ
  pub created_at : String
  pub completed_at : Option String
  pub error : String

pub record Journal : Type 0 where
  pub rows : List Row
  pub next_id : ℕ

-- The keyword arguments of `begin`.
pub record NewOperation : Type 0 where
  pub package_id : String
  pub action : Action
  pub before : PackageState
  pub device : DeviceIdentity
  pub before_apk : String
  pub after_apk : String
  pub batch_id : String
  pub parent_id : Option ℕ
  pub inverse_action : Inverse

-- status = 'pending'
abbrev pub is_pending : Status → Bool
is_pending Status.pending = true
is_pending _ = false

-- status = 'uncertain'
abbrev pub is_uncertain : Status → Bool
is_uncertain Status.uncertain = true
is_uncertain _ = false

-- status IN ('pending', 'uncertain')
abbrev pub is_unresolved : Status → Bool
is_unresolved Status.pending = true
is_unresolved Status.uncertain = true
is_unresolved _ = false

-- status IN ('applied', 'uncertain')
abbrev pub is_revertible : Status → Bool
is_revertible Status.applied = true
is_revertible Status.uncertain = true
is_revertible _ = false

-- status IN ('pending', 'applied', 'uncertain')
abbrev pub is_active : Status → Bool
is_active Status.pending = true
is_active Status.applied = true
is_active Status.uncertain = true
is_active _ = false

abbrev pub is_applied : Status → Bool
is_applied Status.applied = true
is_applied _ = false

-- WHERE package = ? AND status IN ('pending', 'uncertain') ORDER BY id DESC LIMIT 1
unfoldable pub latest_unresolved : String → List Row → Option Row
latest_unresolved p [] = none
latest_unresolved p (r ∷ rows) =
    if r.package_id == p && is_unresolved r.status then some r else latest_unresolved p rows

abbrev pub is_parent : Option ℕ → ℕ → Bool
is_parent none i = false
is_parent (some p) i = i == p

-- `unresolved is not None and int(unresolved["id"]) != parent_id`
abbrev pub blocks : Option ℕ → Option Row → Bool
blocks parent none = false
blocks parent (some r) = not (is_parent parent r.id)

abbrev pub new_row : ℕ → String → NewOperation → Row
new_row i now new = record {
  id = i;
  package_id = new.package_id;
  action = new.action;
  status = Status.pending;
  inverse_action = new.inverse_action;
  before = new.before;
  after = none;
  device = new.device;
  before_apk = new.before_apk;
  after_apk = new.after_apk;
  batch_id = new.batch_id;
  parent_id = new.parent_id;
  created_at = now;
  completed_at = none;
  error = "";
}

unfoldable pub begin : String → NewOperation → Exec Journal ℕ
begin now new j =
    if blocks new.parent_id (latest_unresolved new.package_id j.rows)
    then (err (refusal "this package already has an unfinished or uncertain operation"), j)
    else (
      ok j.next_id,
      record { rows = new_row j.next_id now new ∷ j.rows; next_id = suc j.next_id },
    )

-- UPDATE … WHERE id = ? AND (test of the status)
unfoldable pub update_at : ℕ → (Status → Bool) → (Row → Row) → List Row → List Row
update_at i test change [] = []
update_at i test change (r ∷ rows) =
    (if r.id == i && test r.status then change r else r) ∷ update_at i test change rows

-- `cursor.rowcount` of the same statement.
unfoldable pub rowcount : ℕ → (Status → Bool) → List Row → ℕ
rowcount i test [] = 0
rowcount i test (r ∷ rows) =
    let rest = rowcount i test rows in if r.id == i && test r.status then suc rest else rest

abbrev pub update_rows : ℕ → (Status → Bool) → (Row → Row) → Journal → Journal
update_rows i test change j = record j { rows = update_at i test change j.rows }

-- The update, refused and rolled back unless it changed exactly one row.
abbrev pub update_one : ℕ → (Status → Bool) → (Row → Row) → String → Exec Journal Unit
update_one i test change reason j =
    if rowcount i test j.rows == 1
    then (ok tt, update_rows i test change j)
    else (err (refusal reason), j)

abbrev pub completed : String → PackageState → Inverse → Row → Row
completed now after inverse r = record r {
  status = Status.applied;
  after = some after;
  inverse_action = inverse;
  completed_at = some now;
}

unfoldable pub complete : String → ℕ → PackageState → Inverse → Exec Journal Unit
complete now i after inverse =
    update_one i is_pending (completed now after inverse) "operation journal transition is invalid"

abbrev pub failed : String → String → Row → Row
failed now error r = record r {
  status = Status.uncertain;
  error = prefix_of 500 error;
  completed_at = some now;
}

unfoldable pub fail : String → ℕ → String → Exec Journal Unit
fail now i error j = (ok tt, update_rows i is_pending (failed now error) j)

-- SELECT * … WHERE id = ?
unfoldable pub find_row : ℕ → List Row → Option Row
find_row i [] = none
find_row i (r ∷ rows) = if r.id == i then some r else find_row i rows

abbrev pub or_missing : Option Row → Result Row
or_missing none = err (refusal "operation does not exist")
or_missing (some r) = ok r

unfoldable pub get : ℕ → Journal → Result Row
get i j = or_missing (find_row i j.rows)

-- `list(limit)`
unfoldable pub recent : ℕ → List Row → List Row
recent n [] = []
recent ℕ.zero (r ∷ rows) = []
recent (suc n) (r ∷ rows) = r ∷ recent n rows

-- WHERE package = ? AND id > ? AND status IN ('pending', 'applied', 'uncertain')
unfoldable pub has_newer : String → ℕ → List Row → Bool
has_newer p i [] = false
has_newer p i (r ∷ rows) =
    (r.package_id == p && (ltb i r.id && is_active r.status)) || has_newer p i rows

abbrev pub has_inverse : Inverse → Bool
has_inverse nothing = false
has_inverse _ = true

-- `current != record.after`
abbrev pub matches_after : PackageState → Option PackageState → Bool
matches_after current none = false
matches_after current (some after) = current == after

-- The checks of `prepare_selective_rollback`, in their order, on the row that was found.
unfoldable pub check_rollback : Journal → PackageState → DeviceIdentity → Row → Result Row
check_rollback j current device r =
    if not (is_revertible r.status) || not (has_inverse r.inverse_action)
    then err (refusal "operation is not available for rollback")
    else if not (r.device == device)
    then err (refusal "device identity changed; rollback refused")
    else if has_newer r.package_id r.id j.rows
    then err
        (refusal "a newer active operation changed this package; rollback would violate its state")
    else if is_applied r.status && not (matches_after current r.after)
    then err
        (refusal "current package state differs from the recorded result; refresh evidence first")
    else ok r

unfoldable pub prepare_selective_rollback : ℕ → PackageState → DeviceIdentity → Journal → Result Row
unfolding get check_rollback
prepare_selective_rollback i current device j = chain (get i j) (check_rollback j current device)

abbrev pub reconciled_row : String → Row → Row
reconciled_row now r = record r { status = Status.reconciled; completed_at = some now; error = "" }

unfoldable pub reconcile_no_change : String → ℕ → Exec Journal Unit
reconcile_no_change now i =
    update_one i is_uncertain (reconciled_row now) "uncertain operation is no longer reconcilable"

abbrev pub reverted_row : String → Row → Row
reverted_row now r = record r { status = Status.reverted; completed_at = some now }

abbrev pub recorded_row : Row → Row
recorded_row r = record r { status = Status.rollback_recorded }

-- `rollback is None or rollback["status"] != "applied"`
abbrev pub not_applied : Option Row → Bool
not_applied none = true
not_applied (some r) = not (is_applied r.status)

abbrev pub any_status : Status → Bool
any_status _ = true

-- `with connection:` of sqlite3: what the block wrote is committed if it returns, and rolled back if
-- it raises.
abbrev pub transaction : {A : Type 0} → Exec Journal A → Exec Journal A
transaction m j = let (r, written) = m j in (r, elim r [ ok a ↦ written | err e ↦ j ])

-- The statements of `finish_rollback` in their order; a refusal leaves behind what was written so far.
abbrev pub mark_rollback : String → ℕ → ℕ → Exec Journal Unit
mark_rollback now original rollback_id j =
    let marked = update_rows original is_revertible (reverted_row now) j in
    if not (rowcount original is_revertible j.rows == 1)
    then (err (refusal "original operation is no longer rollbackable"), marked)
    else if not_applied (find_row rollback_id marked.rows)
    then (err (refusal "rollback operation was not completed"), marked)
    else (ok tt, update_rows rollback_id any_status recorded_row marked)

unfoldable pub finish_rollback : String → ℕ → ℕ → Exec Journal Unit
finish_rollback now original rollback_id = transaction (mark_rollback now original rollback_id)
