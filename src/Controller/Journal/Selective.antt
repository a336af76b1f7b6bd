-- ===== src/Controller/Journal/Selective.antt =====
-- When a rollback is allowed, and what the methods around it do to the rows.
use tv_safety_cleaner.Prelude.{
  ℕ, ◌<◌, ◌≤◌, ◌≡◌, refl, sym, ◌≢◌, ◌↔◌, inl, inr, String, true, false, Option, none, some, List,
  [], ◌∷◌, arith, ◌==◌, nat_eq, if◌then◌else◌, Option-cases, ◌⊎◌, All, String_discrete,
}
use tv_safety_cleaner.Exec.{ok, err, refusal}
use tv_safety_cleaner.Controller.Device.{DeviceIdentity, PackageState}
use tv_safety_cleaner.Controller.Journal.{
  Status, nothing, Row, Journal, NewOperation, begin, find_row, is_active, is_applied,
  is_revertible, is_unresolved, has_newer, prepare_selective_rollback, latest_unresolved,
  finish_rollback, update_at, new_row, any_status, reverted_row, recorded_row,
}
use tv_safety_cleaner.Controller.Journal.Rows.{
  IsOrdered, find_row-update_at, rowcount-eq, find_row-above, count_of,
}
use tv_safety_cleaner.Controller.Journal.Invariant.{IsValid}

-- No row of the package with a higher id is pending, applied or uncertain.
abbrev pub NoNewer : String → ℕ → List Row → Type 0
NoNewer p i rows =
    (k : ℕ) (s : Row)
    → find_row k rows ≡ some s
    → s.package_id ≡ p
    → i < k
    → is_active s.status ≡ false

find_row-id : (k : ℕ) (rows : List Row) {r : Row} → find_row k rows ≡ some r → r.id ≡ k
unfolding find_row
find_row-id k [] h = cc
find_row-id k (s ∷ rows) {r} h = ground (arith, find_row-id k rows {r = r})

has_newer-NoNewer :
    (p : String) (i : ℕ) (rows : List Row) → has_newer p i rows ≡ false → NoNewer p i rows
unfolding has_newer find_row
has_newer-NoNewer p i [] h k s found same lt = cc
has_newer-NoNewer p i (r ∷ rows) h k s found same lt =
    ground (arith, has_newer-NoNewer p i rows, has_newer-NoNewer p i rows (ground arith) k s)

NoNewer-tail :
    (p : String) (i bound : ℕ) (r : Row) (rows : List Row)
    → IsOrdered bound (r ∷ rows)
    → NoNewer p i (r ∷ rows)
    → NoNewer p i rows
unfolding find_row
NoNewer-tail p i bound r rows h all k s found same lt =
    ground (arith, all k s, find_row-above k r.id rows h.1)

test_of_NoNewer :
    (p : String) (i bound : ℕ) (rows : List Row)
    → IsOrdered bound rows
    → NoNewer p i rows
    → has_newer p i rows ≡ false
unfolding has_newer find_row
test_of_NoNewer p i bound [] h all = refl
test_of_NoNewer p i bound (r ∷ rows) h all =
    let rest = test_of_NoNewer p i r.id rows h.1 (NoNewer-tail p i bound r rows h all) in
    ground (arith, all r.id r)

-- What makes the row `r` with id `i` safe to revert on a TV that is now in state `current`.
pub record IsRevertible (j : Journal) (i : ℕ) (current : PackageState) (device : DeviceIdentity)
    (r : Row) : Type 0 where
  pub found : find_row i j.rows ≡ some r
  pub open_status : is_revertible r.status ≡ true
  pub inverse : r.inverse_action ≢ nothing
  pub same_device : r.device ≡ device
  pub latest : NoNewer r.package_id r.id j.rows
  pub result : is_applied r.status ≡ true → r.after ≡ some current

-- `prepare_selective_rollback` accepts exactly the rows that are safe to revert.
pub prepare_iff :
    (i : ℕ) (current : PackageState) (device : DeviceIdentity) (j : Journal) (r : Row)
    → IsValid j
    → (prepare_selective_rollback i current device j ≡ ok r) ↔ IsRevertible j i current device r
unfolding prepare_selective_rollback
prepare_iff i current device j r valid = (
  λ h. record {
    found = ground arith;
    open_status = ground arith;
    inverse = ground arith;
    same_device = ground arith;
    latest = has_newer-NoNewer r.package_id r.id j.rows (ground arith);
    result = ground arith;
  },
  λ h.
      let newer = test_of_NoNewer r.package_id r.id j.next_id j.rows valid h.latest in ground arith,
)

-- A row that is still unresolved, newest first, is the only one that `begin` looks at.
latest_unresolved-eq :
    (p : String) (rows : List Row) {r : Row}
    → latest_unresolved p rows ≡ some r
    → (r.package_id ≡ p) × (is_unresolved r.status ≡ true)
unfolding latest_unresolved
latest_unresolved-eq p [] h = cc
latest_unresolved-eq p (s ∷ rows) {r} h = ground (arith, latest_unresolved-eq p rows {r = r})

-- No row of the package waits for its outcome.
abbrev pub NoUnresolved : String → List Row → Type 0
NoUnresolved p rows = All (λ r. (r.package_id ≢ p) ⊎ (is_unresolved r.status ≡ false)) rows

latest_unresolved-NoUnresolved :
    (p : String) (rows : List Row) → latest_unresolved p rows ≡ none → NoUnresolved p rows
unfolding latest_unresolved
latest_unresolved-NoUnresolved p [] h = tt
latest_unresolved-NoUnresolved p (r ∷ rows) h = (
  elim (String_discrete r.package_id p) [ yes e ↦ inr (ground arith) | no e ↦ inl e ],
  latest_unresolved-NoUnresolved p rows (ground arith),
)

latest_unresolved-none :
    (p : String) (rows : List Row) (k : ℕ) (s : Row)
    → latest_unresolved p rows ≡ none
    → find_row k rows ≡ some s
    → s.package_id ≡ p
    → is_unresolved s.status ≡ false
unfolding latest_unresolved find_row
latest_unresolved-none p [] k s h found same = cc
latest_unresolved-none p (r ∷ rows) k s h found same =
    ground (arith, latest_unresolved-none p rows k s)

-- What a journal has gained by the operation `i`: one pending row that tells what was asked.
pub record Begun (now : String) (new : NewOperation) (i : ℕ) (j k : Journal) : Type 0 where
  pub row : Row
  pub added : k.rows ≡ row ∷ j.rows
  pub id : row.id ≡ i
  pub status : row.status ≡ Status.pending
  pub package_id : row.package_id ≡ new.package_id
  pub before : row.before ≡ new.before
  pub before_apk : row.before_apk ≡ new.before_apk
  pub parent_id : row.parent_id ≡ new.parent_id

-- An operation that is no rollback begins only if no row of its package, in the whole table, is
-- pending or uncertain; the journal gains one row, which is pending, names the package, the state
-- before and the archive that were given, and has an id that no row had. This holds for the first
-- operation on a package as for any later one.
pub begin_exclusive :
    (now : String) (new : NewOperation) (j : Journal) (i : ℕ)
    → IsValid j
    → new.parent_id ≡ none
    → (begin now new j).0 ≡ ok i
    → NoUnresolved new.package_id j.rows
      × (find_row i j.rows ≡ none)
      × Begun now new i j (begin now new j).1
unfolding begin
begin_exclusive now new j i valid parent h = (
  latest_unresolved-NoUnresolved new.package_id j.rows
      (elim (Option-cases (latest_unresolved new.package_id j.rows)) [
        | inl e ↦ e
        | inr (r, e) ↦ ground arith
      ]),
  ground (arith, find_row-above i j.next_id j.rows valid),
  record {
    row = new_row i now new;
    added = ground arith;
    id = refl;
    status = refl;
    package_id = refl;
    before = refl;
    before_apk = refl;
    parent_id = refl;
  },
)

-- While an operation is unresolved, no second one begins on its package: a `begin` with no parent is
-- refused and writes nothing.
pub begin_unresolved :
    (now : String) (new : NewOperation) (j : Journal) (k : ℕ) (s : Row)
    → find_row k j.rows ≡ some s
    → s.package_id ≡ new.package_id
    → is_unresolved s.status ≡ true
    → new.parent_id ≡ none
    → begin now new j
      ≡ (err (refusal "this package already has an unfinished or uncertain operation"), j)
unfolding begin
begin_unresolved now new j k s found same open_status parent =
    elim (Option-cases (latest_unresolved new.package_id j.rows)) [
      | inl e ↦ ground (arith, latest_unresolved-none new.package_id j.rows k s e found same)
      | inr (r, e) ↦ ground arith
    ]

-- What `finish_rollback` leaves of the row `k`.
abbrev pub finished : String → ℕ → ℕ → ℕ → Option Row → Option Row
finished now original rollback_id k none = none
finished now original rollback_id k (some r) =
    some
      (if k == original then reverted_row now r else if k == rollback_id then recorded_row r else r)

-- The original can still be reverted, and the rollback is another row that has been applied.
abbrev pub CanFinish : ℕ → ℕ → List Row → Type 0
CanFinish original rollback_id rows =
    (original ≢ rollback_id)
    × (count_of is_revertible (find_row original rows) ≡ 1)
    × (count_of is_applied (find_row rollback_id rows) ≡ 1)

module _ (now : String) (original rollback_id : ℕ) (j : Journal) (valid : IsValid j) where
  -- `finish_rollback` succeeds exactly if the original is applied or uncertain and the rollback is
  -- another row, which is applied.
  pub finish_iff :
      ((finish_rollback now original rollback_id j).0 ≡ ok tt)
      ↔ CanFinish original rollback_id j.rows
  unfolding finish_rollback
  finish_iff =
      let count = rowcount-eq original j.next_id is_revertible j.rows valid in
      let marked =
        find_row-update_at original is_revertible (reverted_row now) (λ r. refl) rollback_id
          j.rows in
      (λ h. ground arith, λ h. ground arith)

  -- A finished rollback marks the original as reverted and the rollback as recorded, and touches no
  -- other row.
  pub finish_effect :
      (k : ℕ)
      → (finish_rollback now original rollback_id j).0 ≡ ok tt
      → find_row k (finish_rollback now original rollback_id j).1.rows
        ≡ finished now original rollback_id k (find_row k j.rows)
  unfolding finish_rollback
  finish_effect k h =
      let count = rowcount-eq original j.next_id is_revertible j.rows valid in
      let marked =
        find_row-update_at original is_revertible (reverted_row now) (λ r. refl) rollback_id
          j.rows in
      ground (
        arith,
        find_row-update_at rollback_id any_status recorded_row (λ r. refl) k
            (update_at original is_revertible (reverted_row now) j.rows),
        find_row-update_at original is_revertible (reverted_row now) (λ r. refl) k j.rows,
      )

-- A rollback that failed leaves an uncertain row with no inverse. From then on no row of its package
-- up to that one can be rolled back, that row included, and no operation without a parent begins on
-- the package.
pub failed_rollback_blocks :
    (j : Journal) (k : ℕ) (s : Row) (i : ℕ) (r : Row) (current : PackageState)
    (device : DeviceIdentity) (now : String) (new : NewOperation)
    → IsValid j
    → find_row k j.rows ≡ some s
    → s.status ≡ Status.uncertain
    → s.inverse_action ≡ nothing
    → r.package_id ≡ s.package_id
    → i ≤ k
    → new.package_id ≡ s.package_id
    → new.parent_id ≡ none
    → (prepare_selective_rollback i current device j ≢ ok r)
      × (begin now new j
          ≡ (err (refusal "this package already has an unfinished or uncertain operation"), j))
failed_rollback_blocks j k s i r current device now new valid found unsure plain same le target
      parent =
    (
      λ accepted.
          let safe = (prepare_iff i current device j r valid).0 accepted in
          let key = find_row-id i j.rows safe.found in
          ground (arith, safe.found, safe.inverse, safe.latest k s found),
      begin_unresolved now new j k s found (sym target) (rw unsure refl) parent,
    )
