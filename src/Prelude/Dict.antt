-- ===== src/Prelude/Dict.antt =====
-- A Python dict with text keys, in insertion order.
use Prim.Native.String.{String}
use mathlib.Core.Path.{◌≡◌, refl}
use mathlib.Core.Option.{Option, none, some}
use mathlib.Core.List.{List, [], ◌∷◌}
use native.Mathlib.Omega.{arith}
use tv_safety_cleaner.Prelude.Tests.{◌==◌, string_eq, if◌then◌else◌}

abbrev pub Dict {ℓ} : Type ℓ → Type ℓ
Dict V = List (String × V)

module _ {ℓ} {V : Type ℓ} where
  -- `d.get(k)`
  unfoldable pub lookup : String → Dict V → Option V
  lookup k [] = none
  lookup k ((j, v) ∷ d) = if j == k then some v else lookup k d

  -- `d[k] = v`
  unfoldable pub insert : String → V → Dict V → Dict V
  insert k v [] = (k, v) ∷ []
  insert k v ((j, w) ∷ d) = if j == k then (k, v) ∷ d else (j, w) ∷ insert k v d

  -- `d.get(k, default)`
  unfoldable pub get_or : V → String → Dict V → V
  get_or default k d = elim (lookup k d) [ none ↦ default | some v ↦ v ]

  pub lookup-insert :
      (k j : String) (v : V) (d : Dict V)
      → lookup j (insert k v d) ≡ (if k == j then some v else lookup j d)
  unfolding lookup insert
  lookup-insert k j v [] = refl
  lookup-insert k j v ((i, w) ∷ d) = ground (arith, lookup-insert k j v d)

module _ {ℓ} {V : Type ℓ} where
  -- `d.update(changes)`
  unfoldable pub update : Dict V → Dict V → Dict V
  unfolding insert
  update [] d = d
  update ((k, v) ∷ changes) d = update changes (insert k v d)

  -- A key that `changes` does not set keeps its value.
  pub lookup-update_ne :
      (k : String) (changes d : Dict V)
      → lookup k changes ≡ none
      → lookup k (update changes d) ≡ lookup k d
  unfolding update lookup
  lookup-update_ne k [] d h = refl
  lookup-update_ne k ((j, v) ∷ changes) d h =
      ground (arith, lookup-update_ne k changes (insert j v d), lookup-insert j k v d)
