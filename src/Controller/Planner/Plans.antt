-- ===== src/Controller/Planner/Plans.antt =====
-- What `build_dry_run` promises of the plan that it returns.
use mathlib.Core.List.{Perm}
use tv_safety_cleaner.Prelude.{
  ◌≤◌, String, ◌≡◌, refl, ap, Bool, true, false, inl, inr, List, [], ◌∷◌, ◌++◌, map, ◌==◌,
  string_eq, contains, select, length, All, sort, insert_sorted, le_text, IsSorted, sort-IsSorted,
  sort-perm, le_text_total, arith, Bool-cases,
}
use tv_safety_cleaner.Prelude.Dict.{lookup, get_or}
use tv_safety_cleaner.Exec.{ok}
use tv_safety_cleaner.Controller.Planner.{
  confirmed_safe, PlannedOperation, VerifiedSnapshot, DeviceProfile, DryRunPlan, Policy,
  is_never_touch, policy, check_policy, build_dry_run, all_listed, distinct, planned,
  refuse_protected,
}
use tv_safety_cleaner.Controller.Planner.Gates.{Agrees, verify_iff}

-- Every name is listed once.
abbrev pub NoDuplicates : List String → Type 0
NoDuplicates [] = Unit
NoDuplicates (x ∷ xs) = (contains x xs ≡ false) × NoDuplicates xs

length-distinct : (xs : List String) → length (distinct xs) ≤ length xs
unfolding distinct
length-distinct [] = omega arith
length-distinct (x ∷ xs) = ground (arith, length-distinct xs)

contains-distinct : (a : String) (xs : List String) → contains a (distinct xs) ≡ contains a xs
unfolding distinct
contains-distinct a [] = refl
contains-distinct a (x ∷ xs) = ground (arith, contains-distinct a xs, contains-distinct x xs)

-- `len(names) == len(set(names))` holds exactly of a list without repetition.
length-NoDuplicates : (xs : List String) → length xs ≡ length (distinct xs) → NoDuplicates xs
unfolding distinct
length-NoDuplicates [] h = tt
length-NoDuplicates (x ∷ xs) h =
    ground (arith, length-NoDuplicates xs, length-distinct xs, contains-distinct x xs)

module _ (P : String → Type 0) where
  All-append_left : (xs ys : List String) → All P (xs ++ ys) → All P xs
  All-append_left [] ys h = tt
  All-append_left (x ∷ xs) ys h = (h.0, All-append_left xs ys h.1)

  All-append_right : (xs ys : List String) → All P (xs ++ ys) → All P ys
  All-append_right [] ys h = h
  All-append_right (x ∷ xs) ys h = All-append_right xs ys h.1

  All-get_or : (key : String) (d : Policy) → All P (all_listed d) → All P (get_or [] key d)
  unfolding get_or all_listed lookup
  All-get_or key [] h = tt
  All-get_or key ((k, values) ∷ d) h = elim (Bool-cases (k == key)) [
    | inl e ↦ rw (e, All) (All-append_left values (all_listed d) h)
    | inr e ↦ rw (e, All) (All-get_or key d (All-append_right values (all_listed d) h))
  ]

  All-insert : (x : String) (xs : List String) → P x → All P xs → All P (insert_sorted le_text x xs)
  unfolding insert_sorted
  All-insert x [] p h = (p, tt)
  All-insert x (y ∷ ys) p h = ground (arith, All-insert x ys p h.1)

  All-sort : (xs : List String) → All P xs → All P (sort le_text xs)
  unfolding sort
  All-sort [] h = tt
  All-sort (x ∷ xs) h = All-insert x (sort le_text xs) h.0 (All-sort xs h.1)

-- No protected name was found in the list.
select-All :
    (xs : List String)
    → refuse_protected (select is_never_touch xs) ≡ ok tt
    → All (λ q. is_never_touch q ≡ false) xs
select-All [] h = tt
select-All (x ∷ xs) h = ground (arith, select-All xs)

abbrev IsSafeOperation : PlannedOperation → Type 0
IsSafeOperation o = (o.category ≡ confirmed_safe) × (is_never_touch o.package_id ≡ false)

All-planned :
    (xs : List String)
    → All (λ q. is_never_touch q ≡ false) xs
    → All IsSafeOperation (map planned xs)
All-planned [] h = tt
All-planned (x ∷ xs) h = ((refl, h.0), All-planned xs h.1)

packages_of-planned : (xs : List String) → map (λ o. o.package_id) (map planned xs) ≡ xs
packages_of-planned [] = refl
packages_of-planned (x ∷ xs) = ap (λ t. x ∷ t) (packages_of-planned xs)

-- What is known of a plan made under the policy `listed`.
pub record IsSafePlan (p : DeviceProfile) (s : VerifiedSnapshot) (listed : Policy)
    (plan : DryRunPlan) : Type 0 where
  pub agrees : Agrees p s
  pub fingerprint : plan.snapshot_fingerprint ≡ p.fingerprint
  pub once : NoDuplicates (all_listed listed)
  pub untouched : All (λ q. is_never_touch q ≡ false) (all_listed listed)
  pub safe : All IsSafeOperation plan.operations
  pub chosen : Perm (map (λ o. o.package_id) plan.operations) (get_or [] "confirmed_safe" listed)
  pub ordered : IsSorted le_text (map (λ o. o.package_id) plan.operations)
  pub no_calls : plan.mutating_calls ≡ 0

check_policy_lem :
    (listed : Policy) (operations : List PlannedOperation)
    → check_policy listed ≡ ok operations
    → NoDuplicates (all_listed listed)
      × All (λ q. is_never_touch q ≡ false) (all_listed listed)
      × (operations ≡ map planned (sort le_text (get_or [] "confirmed_safe" listed)))
unfolding check_policy
check_policy_lem listed operations h = (
  length-NoDuplicates (all_listed listed) (ground arith),
  select-All (all_listed listed) (ground arith),
  ground arith,
)

-- A plan that is returned is safe: the profile agrees with the snapshot, the connection and the
-- authorization were verified, no package is listed twice or protected, and the operations are the
-- confirmed-safe packages of the policy, each once, in order.
pub build_dry_run_safe :
    (p : DeviceProfile) (s : VerifiedSnapshot) (connection authorization : Bool) (listed : Policy)
    (plan : DryRunPlan)
    → policy p ≡ ok listed
    → build_dry_run p s connection authorization ≡ ok plan
    → (connection ≡ true) × (authorization ≡ true) × IsSafePlan p s listed plan
unfolding build_dry_run
build_dry_run_safe p s connection authorization listed plan known h =
    let agrees = (verify_iff p s).0 (ground arith) in
    let (once, untouched, same) = check_policy_lem listed plan.operations (ground arith) in
    let confirmed = sort le_text (get_or [] "confirmed_safe" listed) in
    let names = packages_of-planned confirmed in
    (
      ground arith,
      ground arith,
      record {
        agrees = agrees;
        fingerprint = ground (arith, agrees.fingerprint);
        once = once;
        untouched = untouched;
        safe =
            rw same (
              All-planned confirmed
                (All-sort _ _ (All-get_or _ "confirmed_safe" listed untouched)));
        chosen = rw (same, names) (sort-perm le_text _);
        ordered = rw (same, names) (sort-IsSorted le_text le_text_total _);
        no_calls = ground arith;
      },
    )
