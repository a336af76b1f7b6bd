-- ===== src/Controller/Jobs/Tidy.antt =====
-- Rules for what a method or a thread does to the journal: it keeps the journal valid and leaves no
-- row pending that was not pending before. One rule for each way to build an action.
use tv_safety_cleaner.Prelude.{
  ℕ, ◌≡◌, refl, Bool, true, false, some, nat_eq, if◌then◌else◌, ◌∙◌, Bool-cases, inl, inr,
}
use tv_safety_cleaner.Exec.{
  Exec, Result, ok, err, Error, pure, raise, lift, raise_if, continue, ◌>>=◌,
}
use tv_safety_cleaner.Controller.Tasks.{Tasks}
use tv_safety_cleaner.Controller.Journal.{Journal, Row, is_pending, find_row}
use tv_safety_cleaner.Controller.Journal.Invariant.{IsValid}
use tv_safety_cleaner.Controller.Jobs.{Manager, Disk, on_tv, on_tasks, on_disk, consult, gets}

-- Every row that is pending in `k` was the same row, pending, in `j`.
abbrev pub NoNewPending : Journal → Journal → Type 0
NoNewPending j k =
    (i : ℕ) (r : Row)
    → find_row i k.rows ≡ some r
    → is_pending r.status ≡ true
    → find_row i j.rows ≡ some r

-- The row `i` is not pending.
abbrev pub Resolved : ℕ → Journal → Type 0
Resolved i j = (r : Row) → find_row i j.rows ≡ some r → is_pending r.status ≡ false

abbrev pub KeepsTidy : Journal → Journal → Type 0
KeepsTidy j k = IsValid k × NoNewPending j k

pub record Tidy {W A : Type 0} (m : Exec (Manager W) A) : Type 0 where
  pub at : (s : Manager W) → IsValid s.journal → KeepsTidy s.journal (m s).1.journal

-- The action does not touch the journal.
pub record Aside {W A : Type 0} (m : Exec (Manager W) A) : Type 0 where
  pub at : (s : Manager W) → (m s).1.journal ≡ s.journal

-- If the action returns, the row `i` is no longer pending.
pub record Settles {W A : Type 0} (i : ℕ) (m : Exec (Manager W) A) : Type 0 where
  pub at : (s : Manager W) (a : A) → IsValid s.journal → (m s).0 ≡ ok a → Resolved i (m s).1.journal

KeepsTidy-refl : (j : Journal) → IsValid j → KeepsTidy j j
KeepsTidy-refl j h = (h, λ i r found pending. found)

KeepsTidy-trans : (j k l : Journal) → KeepsTidy j k → KeepsTidy k l → KeepsTidy j l
KeepsTidy-trans j k l (_, p) (v, q) = (v, λ i r found pending. p i r (q i r found pending) pending)

module _ {W A : Type 0} where
  pub Aside-Tidy : (m : Exec (Manager W) A) → Aside m → Tidy m
  Aside-Tidy m a = record { at = λ s h. rw (a.at s) (KeepsTidy-refl s.journal h) }

  pub Aside-pure : (a : A) → Aside {W = W} (pure a)
  unfolding pure
  Aside-pure a = record { at = λ s. refl }

  pub Aside-raise : (e : Error) → Aside {W = W} {A = A} (raise e)
  unfolding raise
  Aside-raise e = record { at = λ s. refl }

  pub Aside-lift : (r : Result A) → Aside {W = W} (lift r)
  unfolding lift
  Aside-lift r = record { at = λ s. refl }

  pub Aside-on_tv : (m : Exec W A) → Aside (on_tv m)
  unfolding on_tv
  Aside-on_tv m = record { at = λ s. refl }

  pub Aside-on_disk : (m : Exec (Disk W) A) → Aside (on_disk m)
  unfolding on_disk
  Aside-on_disk m = record { at = λ s. refl }

  pub Aside-on_tasks : (m : Exec Tasks A) → Aside {W = W} (on_tasks m)
  unfolding on_tasks
  Aside-on_tasks m = record { at = λ s. refl }

  pub Aside-gets : (f : Manager W → A) → Aside (gets f)
  unfolding gets
  Aside-gets f = record { at = λ s. refl }

  pub Aside-consult : (f : Manager W → Result A) → Aside (consult f)
  unfolding consult
  Aside-consult f = record { at = λ s. refl }

  pub Tidy-if : (b : Bool) (m n : Exec (Manager W) A) → Tidy m → Tidy n → Tidy (if b then m else n)
  Tidy-if true m n h k = h
  Tidy-if false m n h k = k

  pub Aside-if :
      (b : Bool) (m n : Exec (Manager W) A) → Aside m → Aside n → Aside (if b then m else n)
  Aside-if true m n h k = h
  Aside-if false m n h k = k

pub Aside-raise_if : {W : Type 0} (b : Bool) (e : Error) → Aside {W = W} (raise_if b e)
unfolding raise_if
Aside-raise_if true e = record { at = λ s. refl }
Aside-raise_if false e = record { at = λ s. refl }

module _ {W A B : Type 0} where
  continue-Tidy :
      (f : A → Exec (Manager W) B) (j : Journal) (r : Result A) (s : Manager W)
      → ((a : A) → Tidy (f a))
      → KeepsTidy j s.journal
      → KeepsTidy j (continue f (r, s)).1.journal
  continue-Tidy f j (ok a) s k h = KeepsTidy-trans j s.journal _ h ((k a).at s h.0)
  continue-Tidy f j (err e) s k h = h

  pub Tidy-bind :
      (m : Exec (Manager W) A) (f : A → Exec (Manager W) B)
      → Tidy m
      → ((a : A) → Tidy (f a))
      → Tidy (m >>= f)
  unfolding ◌>>=◌
  Tidy-bind m f h k = record { at = λ s v. continue-Tidy f s.journal (m s).0 (m s).1 k (h.at s v) }

  continue-Aside :
      (f : A → Exec (Manager W) B) (r : Result A) (s : Manager W)
      → ((a : A) → Aside (f a))
      → (continue f (r, s)).1.journal ≡ s.journal
  continue-Aside f (ok a) s k = (k a).at s
  continue-Aside f (err e) s k = refl

  pub Aside-bind :
      (m : Exec (Manager W) A) (f : A → Exec (Manager W) B)
      → Aside m
      → ((a : A) → Aside (f a))
      → Aside (m >>= f)
  unfolding ◌>>=◌
  Aside-bind m f h k = record { at = λ s. continue-Aside f (m s).0 (m s).1 k ∙ h.at s }

  -- The rest of the block settles the row.
  continue-Settles :
      (i : ℕ) (f : A → Exec (Manager W) B) (r : Result A) (s : Manager W) (b : B)
      → ((a : A) → Settles i (f a))
      → IsValid s.journal
      → (continue f (r, s)).0 ≡ ok b
      → Resolved i (continue f (r, s)).1.journal
  continue-Settles i f (ok a) s b k v h = (k a).at s b v h
  continue-Settles i f (err e) s b k v h = cc

  pub Settles-bind :
      (i : ℕ) (m : Exec (Manager W) A) (f : A → Exec (Manager W) B)
      → Tidy m
      → ((a : A) → Settles i (f a))
      → Settles i (m >>= f)
  unfolding ◌>>=◌
  Settles-bind i m f h k = record {
    at = λ s b v e. continue-Settles i f (m s).0 (m s).1 b k (h.at s v).0 e;
  }

  continue_rest :
      (i : ℕ) (f : A → Exec (Manager W) B) (r : Result A) (s : Manager W) (b : B)
      → ((a : A) → Tidy (f a))
      → IsValid s.journal
      → ((a : A) → r ≡ ok a → Resolved i s.journal)
      → (continue f (r, s)).0 ≡ ok b
      → Resolved i (continue f (r, s)).1.journal
  continue_rest i f (ok a) s b k v settled h = λ r found. elim (Bool-cases (is_pending r.status)) [
    | inl p ↦ settled a refl r (((k a).at s v).1 i r found p)
    | inr p ↦ p
  ]
  continue_rest i f (err e) s b k v settled h = cc

  -- The first part settles the row, and the rest starts no row.
  pub Settles-first :
      (i : ℕ) (m : Exec (Manager W) A) (f : A → Exec (Manager W) B)
      → Tidy m
      → Settles i m
      → ((a : A) → Tidy (f a))
      → Settles i (m >>= f)
  unfolding ◌>>=◌
  Settles-first i m f t h k = record {
    at =
        λ s b v e. continue_rest i f (m s).0 (m s).1 b k (t.at s v).0 (λ a ok_a. h.at s a v ok_a) e;
  }
