-- ===== src/Exec/Keeps.antt =====
-- Rules for an invariant of the state that an action keeps, however it ends. One rule for each way to
-- build an action.
use tv_safety_cleaner.Prelude.{◌≡◌, refl, Bool, true, false, if◌then◌else◌}
use tv_safety_cleaner.Exec.{
  Exec, Result, ok, err, Error, pure, raise, lift, raise_if, catch, handle, continue, ◌>>=◌,
}

pub record Keeps {S A : Type 0} (I : S → Type 0) (m : Exec S A) : Type 0 where
  pub at : (s : S) → I s → I (m s).1

module _ {S A : Type 0} {I : S → Type 0} where
  pub Keeps-pure : (a : A) → Keeps I (pure a)
  unfolding pure
  Keeps-pure a = record { at = λ s h. h }

  pub Keeps-raise : (e : Error) → Keeps {A = A} I (raise e)
  unfolding raise
  Keeps-raise e = record { at = λ s h. h }

  pub Keeps-lift : (r : Result A) → Keeps I (lift r)
  unfolding lift
  Keeps-lift r = record { at = λ s h. h }

  pub Keeps-if : (b : Bool) (m n : Exec S A) → Keeps I m → Keeps I n → Keeps I (if b then m else n)
  Keeps-if true m n h k = h
  Keeps-if false m n h k = k

  handle-Keeps :
      (f : Error → Exec S A) (r : Result A) (s : S)
      → ((e : Error) → Keeps I (f e))
      → I s
      → I (handle f (r, s)).1
  handle-Keeps f (ok a) s k h = h
  handle-Keeps f (err e) s k h = (k e).at s h

  pub Keeps-catch :
      (m : Exec S A) (f : Error → Exec S A)
      → Keeps I m
      → ((e : Error) → Keeps I (f e))
      → Keeps I (catch m f)
  unfolding catch
  Keeps-catch m f h k = record { at = λ s i. handle-Keeps f (m s).0 (m s).1 k (h.at s i) }

module _ {S : Type 0} {I : S → Type 0} where
  pub Keeps-raise_if : (b : Bool) (e : Error) → Keeps I (raise_if b e)
  unfolding raise_if
  Keeps-raise_if true e = record { at = λ s h. h }
  Keeps-raise_if false e = record { at = λ s h. h }

module _ {S A B : Type 0} {I : S → Type 0} where
  continue-Keeps :
      (f : A → Exec S B) (r : Result A) (s : S)
      → ((a : A) → Keeps I (f a))
      → I s
      → I (continue f (r, s)).1
  continue-Keeps f (ok a) s k h = (k a).at s h
  continue-Keeps f (err e) s k h = h

  pub Keeps-bind :
      (m : Exec S A) (f : A → Exec S B) → Keeps I m → ((a : A) → Keeps I (f a)) → Keeps I (m >>= f)
  unfolding ◌>>=◌
  Keeps-bind m f h k = record { at = λ s i. continue-Keeps f (m s).0 (m s).1 k (h.at s i) }

  -- What follows a result is reached only with the value in it.
  pub Keeps-lift_bind :
      (r : Result A) (f : A → Exec S B)
      → ((a : A) → r ≡ ok a → Keeps I (f a))
      → Keeps I (lift r >>= f)
  unfolding ◌>>=◌
  Keeps-lift_bind (ok a) f k = record { at = λ s h. (k a refl).at s h }
  Keeps-lift_bind (err e) f k = record { at = λ s h. h }

module _ {S A : Type 0} {I : S → Type 0} where
  -- What follows a check is reached only if it passed.
  pub Keeps-check :
      (b : Bool) (e : Error) (m : Exec S A)
      → (b ≡ false → Keeps I m)
      → Keeps I (raise_if b e >>= λ _. m)
  unfolding ◌>>=◌
  Keeps-check true e m k = record { at = λ s h. h }
  Keeps-check false e m k = record { at = λ s h. (k refl).at s h }

-- The invariant, and what is known where the action returns.
pub record Yields {S A : Type 0} (I : S → Type 0) (Q : A → S → Type 0) (m : Exec S A) : Type 0 where
  pub keeps : Keeps I m
  pub yields : (s : S) (a : A) (t : S) → m s ≡ (ok a, t) → Q a t

module _ {S A B : Type 0} {I : S → Type 0} {Q : A → S → Type 0} where
  pub Yields-bind :
      (m : Exec S A) (f : A → Exec S B)
      → Yields I Q m
      → ((a : A) (s : S) → Q a s → I s → I (f a s).1)
      → Keeps I (m >>= f)
  unfolding ◌>>=◌
  Yields-bind m f h k = record { at = λ s i. after s (m s).0 (m s).1 refl (h.keeps.at s i) }
    where
      after : (s : S) (r : Result A) (t : S) → m s ≡ (r, t) → I t → I (continue f (r, t)).1
      after s (ok a) t same i = k a t (h.yields s a t same) i
      after s (err e) t same i = i

-- For `search`, on the goal `Keeps I m`.
pub ruleset keeps_rules =
    (Keeps-pure, Keeps-raise, Keeps-lift, Keeps-if, Keeps-catch, Keeps-raise_if, Keeps-bind)
