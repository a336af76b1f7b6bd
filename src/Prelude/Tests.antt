-- ===== src/Prelude/Tests.antt =====
-- Boolean tests on numbers and on every type with decidable equality, and the conditional.
use Prim.Native.Nat.{ℕ, compare, Ordering}
use Prim.Native.String.{String}
use mathlib.Core.Path.{◌≡◌, refl}
use mathlib.Core.Logic.{◌⊎◌, inl, inr}
use mathlib.Core.Bool.{Bool, true, false}
use mathlib.Core.Option.{Option, none, some}
use native.Mathlib.Decide.{ℕ_discrete}
use text.Mathlib.Text.{◌==◌ as str_eq}
use text.Mathlib.TextEquality.{eq_iff}

abbrev pub ltb : ℕ → ℕ → Bool
ltb a b = elim (compare a b) [ Ordering.lt ↦ true | _ ↦ false ]

abbrev pub leb : ℕ → ℕ → Bool
leb a b = elim (compare a b) [ Ordering.gt ↦ false | _ ↦ true ]

infix 1 if◌then◌else◌
abbrev pub if◌then◌else◌ {ℓ} : {A : Type ℓ} → Bool → A → A → A
if true then x else _ = x
if false then _ else y = y

-- A decision read as a Boolean; the tactics split on the decision and so learn the equation.
abbrev pub holds {ℓ} : {P : Type ℓ} → Dec P → Bool
holds (yes _) = true
holds (no _) = false

dec_of_str_eq : (s t : String) (b : Bool) → str_eq s t ≡ b → Dec (s ≡ t)
dec_of_str_eq s t true e = yes ((eq_iff s t).0 e)
dec_of_str_eq s t false e = no (λ p. cc ((eq_iff s t).1 p, e))

unfoldable pub String_discrete : Discrete String
unfolding dec_of_str_eq
String_discrete s t = dec_of_str_eq s t (str_eq s t) refl

unfoldable pub Bool_discrete : Discrete Bool
Bool_discrete true true = yes refl
Bool_discrete true false = no (λ p. cc p)
Bool_discrete false true = no (λ p. cc p)
Bool_discrete false false = yes refl

-- Types whose values the program compares by `==`.
pub record HasEq {ℓ} (A : Type ℓ) : Type ℓ where
  pub dec_eq : Discrete A

instance abbrev pub nat_eq : HasEq ℕ
nat_eq = record { dec_eq = ℕ_discrete }

instance abbrev pub string_eq : HasEq String
string_eq = record { dec_eq = String_discrete }

instance abbrev pub bool_eq : HasEq Bool
bool_eq = record { dec_eq = Bool_discrete }

infix 50 ◌==◌
abbrev pub ◌==◌ {ℓ} : {A : Type ℓ} ⦃e : HasEq A⦄ → A → A → Bool
◌==◌ ⦃e⦄ a b = holds (e.dec_eq a b)

pub Bool-cases : (b : Bool) → (b ≡ true) ⊎ (b ≡ false)
Bool-cases true = inl refl
Bool-cases false = inr refl

pub Option-cases {ℓ} : {A : Type ℓ} (o : Option A) → (o ≡ none) ⊎ ((a : A) × (o ≡ some a))
Option-cases none = inl refl
Option-cases (some a) = inr (a, refl)
