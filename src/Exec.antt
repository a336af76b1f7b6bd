-- ===== src/Exec.antt =====
-- Python code that may raise, with and without state. What a method wrote before it raised stays
-- written, so an `Exec` hands its state back beside the exception too.
pub mod Keeps
use tv_safety_cleaner.Prelude.{◌≡◌, refl, ap, String, Bool, true, false}

-- The exceptions that the code raises or handles, each with its message.
pub data Error : Type 0 where
  refusal : String → Error
  value_error : String → Error
  os_error : String → Error
  adb_error : String → Error
  other : String → Error

-- `str(exc)`
abbrev pub message : Error → String
message (refusal m) = m
message (value_error m) = m
message (os_error m) = m
message (adb_error m) = m
message (other m) = m

pub data Result {ℓ} (A : Type ℓ) : Type ℓ where
  ok : A → Result A
  err : Error → Result A

-- `if test: raise e`
abbrev pub refuse_if : Bool → Error → Result (Unit {0})
refuse_if true e = err e
refuse_if false e = ok tt

abbrev pub chain {ℓ κ} : {A : Type ℓ} {B : Type κ} → Result A → (A → Result B) → Result B
chain (ok a) f = f a
chain (err e) f = err e

pub chain-eq-ok {ℓ κ} :
    {A : Type ℓ} {B : Type κ} (m : Result A) (f : A → Result B) {b : B}
    → chain m f ≡ ok b
    → (a : A) × (m ≡ ok a) × (f a ≡ ok b)
chain-eq-ok (ok a) f h = (a, refl, h)
chain-eq-ok (err e) f h = cc

abbrev pub Exec {ℓ} : Type ℓ → Type 0 → Type ℓ
Exec S A = S → Result {0} A × S

module _ {ℓ} {S : Type ℓ} {A : Type 0} where
  unfoldable pub pure : A → Exec S A
  pure a s = (ok a, s)

  unfoldable pub raise : Error → Exec S A
  raise e s = (err e, s)

  unfoldable pub lift : Result A → Exec S A
  lift r s = (r, s)

  abbrev pub handle : (Error → Exec S A) → Result A × S → Result A × S
  handle h (ok a, s) = (ok a, s)
  handle h (err e, s) = h e s

  -- `try: m / except Exception as e: h(e)`
  unfoldable pub catch : Exec S A → (Error → Exec S A) → Exec S A
  catch m h s = handle h (m s)

-- `if test: raise e`
unfoldable pub raise_if {ℓ} : {S : Type ℓ} → Bool → Error → Exec S (Unit {0})
raise_if true e s = (err e, s)
raise_if false e s = (ok tt, s)

module _ {ℓ} {S : Type ℓ} {A B : Type 0} where
  abbrev pub continue : (A → Exec S B) → Result A × S → Result B × S
  continue f (ok a, s) = f a s
  continue f (err e, s) = (err e, s)

  infixl 5 ◌>>=◌ ◌>>◌
  -- Opening this opens the other ways to build an action.
  unfoldable pub ◌>>=◌ : Exec S A → (A → Exec S B) → Exec S B
  unfolding pure raise lift raise_if catch
  ◌>>=◌ m f s = continue f (m s)

  abbrev pub ◌>>◌ : Exec S A → Exec S B → Exec S B
  m >> k = m >>= λ _. k

module _ {ℓ} {S : Type ℓ} {A B : Type 0} where
  -- An action that returned has returned at both of its parts.
  pub bind-eq-ok :
      (m : Exec S A) (f : A → Exec S B) (s : S) {b : B} {t : S}
      → (m >>= f) s ≡ (ok b, t)
      → (a : A) × (u : S) × (m s ≡ (ok a, u)) × (f a u ≡ (ok b, t))
  unfolding ◌>>=◌
  bind-eq-ok m f s {b} {t} h = returned (m s) h refl
    where
      returned :
          (r : Result A × S)
          → continue f r ≡ (ok b, t)
          → m s ≡ r
          → (a : A) × (u : S) × (m s ≡ (ok a, u)) × (f a u ≡ (ok b, t))
      returned (ok a, u) e same = (a, u, same, e)
      returned (err e, u) wrong same = cc

  -- An action goes on with what its first part returned.
  pub bind-eq :
      (m : Exec S A) (f : A → Exec S B) (s : S) {a : A} → (m s).0 ≡ ok a → (m >>= f) s ≡ f a (m s).1
  unfolding ◌>>=◌
  bind-eq m f s {a} h = ap (λ r. continue f (r, (m s).1)) h
