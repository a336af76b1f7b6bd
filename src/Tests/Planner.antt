-- ===== src/Tests/Planner.antt =====
-- A profile with one package that is safe to disable.
use tv_safety_cleaner.Prelude.{
  ◌≡◌, ◌↔◌, refl, true, [], ◌∷◌, nat_eq, string_eq, String_discrete, ℕ_discrete, codes, lower, sort,
  insert_sorted, le_text, has_substring,
}
use tv_safety_cleaner.Prelude.Dict.{Dict, lookup, get_or, insert}
use tv_safety_cleaner.Prelude.Json.{Json, str, arr, obj, item, no_items, field, no_fields}
use tv_safety_cleaner.Exec.{ok}
use tv_safety_cleaner.Controller.Planner.{
  VerifiedSnapshot, DeviceProfile, DryRunPlan, Policy, planned, is_never_touch, verify_profile,
  policy, read_policy, check_policy, build_dry_run, all_listed, distinct,
}
use tv_safety_cleaner.Controller.Planner.Gates.{
  Agrees, verify_iff, is_never_touch_of_token, is_never_touch_case,
}
use tv_safety_cleaner.Controller.Planner.Plans.{IsSafePlan, build_dry_run_safe}

abbrev a_manifest : Dict Json
a_manifest =
    ("platform", str "google-tv")
    ∷ ("model", str "M")
    ∷ ("firmware", str "F")
    ∷ ("fingerprint", str "P")
    ∷ []

abbrev a_snapshot : VerifiedSnapshot
a_snapshot = record { path = "s"; manifest = a_manifest; restore_plan = [] }

abbrev a_profile : DeviceProfile
a_profile = record {
  path = "p";
  profile_id = "m-1";
  platform = "google-tv";
  model = "M";
  firmware = "F";
  fingerprint = "P";
  verified = true;
  recovery_status = "Verified on this device";
  packages =
      (
        "packages",
        obj (
            field "confirmed_safe" (arr (item (str "org.b.ads") (item (str "org.a.ads") no_items)))
              (field "risky" (arr (item (str "org.c.app") no_items)) no_fields)),
      )
      ∷ [];
  checks = [];
}

abbrev a_policy : Policy
a_policy = ("confirmed_safe", "org.b.ads" ∷ "org.a.ads" ∷ []) ∷ ("risky", "org.c.app" ∷ []) ∷ []

abbrev a_plan : DryRunPlan
a_plan = record {
  profile_id = "m-1";
  snapshot_fingerprint = "P";
  operations = planned "org.a.ads" ∷ planned "org.b.ads" ∷ [];
  restore_plan = [];
  mutating_calls = 0;
  mode = "dry-run";
}

verify_iff_example : (verify_profile a_profile a_snapshot ≡ ok tt) ↔ Agrees a_profile a_snapshot
verify_iff_example = verify_iff a_profile a_snapshot

-- The whole profile is read, checked and planned.
plan_is_made : build_dry_run a_profile a_snapshot true true ≡ ok a_plan
unfolding build_dry_run verify_profile policy read_policy check_policy all_listed distinct
    is_never_touch lower has_substring lookup insert get_or sort insert_sorted le_text
    String_discrete ℕ_discrete
plan_is_made = refl

policy_is_read : policy a_profile ≡ ok a_policy
unfolding policy read_policy lookup insert String_discrete
policy_is_read = refl

build_dry_run_safe_example :
    (true ≡ true) × (true ≡ true) × IsSafePlan a_profile a_snapshot a_policy a_plan
build_dry_run_safe_example =
    build_dry_run_safe a_profile a_snapshot true true a_policy a_plan policy_is_read plan_is_made

a_launcher_protected : is_never_touch "com.tcl.TVLauncher2" ≡ true
a_launcher_protected =
    is_never_touch_of_token "com.tcl.TVLauncher2" "launcher" (codes "com.tcl.tv") (codes "2")
      (unfold String_discrete in refl) (unfold lower in refl)

settings_in_any_case : is_never_touch "ANDROID" ≡ is_never_touch "android"
settings_in_any_case = is_never_touch_case "ANDROID" "android" (unfold lower in refl)
