-- ===== src/Controller/Journal/Rows.antt =====
-- Looking rows up by id, and what the UPDATE statements do to a row.
use tv_safety_cleaner.Prelude.{
  ℕ, ◌<◌, ◌≤◌, ◌≡◌, refl, Bool, Option, none, some, List, [], ◌∷◌, arith, ◌==◌, nat_eq,
  if◌then◌else◌,
}
use tv_safety_cleaner.Controller.Journal.{Status, Row, update_at, rowcount, find_row}

-- Newest first: every id is below the one before it, and below the next to be allocated.
abbrev pub IsOrdered : ℕ → List Row → Type 0
IsOrdered bound [] = Unit
IsOrdered bound (r ∷ rows) = (r.id < bound) × IsOrdered r.id rows

pub find_row-above :
    (i bound : ℕ) (rows : List Row) → IsOrdered bound rows → bound ≤ i → find_row i rows ≡ none
unfolding find_row
find_row-above i bound [] h le = refl
find_row-above i bound (r ∷ rows) h le =
    ground (arith, find_row-above i r.id rows h.1 (omega arith))

pub rowcount-above :
    (i bound : ℕ) (test : Status → Bool) (rows : List Row)
    → IsOrdered bound rows
    → bound ≤ i
    → rowcount i test rows ≡ 0
unfolding rowcount
rowcount-above i bound test [] h le = refl
rowcount-above i bound test (r ∷ rows) h le =
    ground (arith, rowcount-above i r.id test rows h.1 (omega arith))

abbrev pub count_of : (Status → Bool) → Option Row → ℕ
count_of test none = 0
count_of test (some r) = if test r.status then 1 else 0

-- `id` is a key, so an UPDATE of one id changes a row exactly if that row passes the test.
pub rowcount-eq :
    (i bound : ℕ) (test : Status → Bool) (rows : List Row)
    → IsOrdered bound rows
    → rowcount i test rows ≡ count_of test (find_row i rows)
unfolding rowcount find_row
rowcount-eq i bound test [] h = refl
rowcount-eq i bound test (r ∷ rows) h =
    ground (arith, rowcount-eq i r.id test rows h.1, rowcount-above i r.id test rows h.1)

abbrev pub change_row : (Status → Bool) → (Row → Row) → Option Row → Option Row
change_row test change none = none
change_row test change (some r) = some (if test r.status then change r else r)

module _ (i : ℕ) (test : Status → Bool) (change : Row → Row)
    (same_id : (r : Row) → (change r).id ≡ r.id) where
  pub find_row-update_at :
      (k : ℕ) (rows : List Row)
      → find_row k (update_at i test change rows)
        ≡ (if k == i then change_row test change (find_row k rows) else find_row k rows)
  unfolding find_row update_at
  find_row-update_at k [] = ground arith
  find_row-update_at k (r ∷ rows) = ground (arith, find_row-update_at k rows, same_id r)

  pub update_at-IsOrdered :
      (bound : ℕ) (rows : List Row)
      → IsOrdered bound rows
      → IsOrdered bound (update_at i test change rows)
  unfolding update_at
  update_at-IsOrdered bound [] h = tt
  update_at-IsOrdered bound (r ∷ rows) h =
      ground (arith, same_id r, update_at-IsOrdered r.id rows h.1)
