-- ===== src/Controller/Planner.antt =====
-- tv_controller/planner.py, with the data of profile.py and snapshot.py that it reads. A manifest and
-- a profile's tables are dicts of JSON values.
pub mod Gates
pub mod Plans
use tv_safety_cleaner.Prelude.{
  ℕ, String, ◌<>◌, Bool, true, false, Option, none, some, List, [], ◌∷◌, ◌++◌, map, not, ◌&&◌, ◌||◌,
  ◌==◌, nat_eq, string_eq, if◌then◌else◌, contains, any, select, length, codes, lower,
  has_substring, same_codes, sort, le_text,
}
use tv_safety_cleaner.Prelude.Dict.{Dict, lookup, insert, get_or}
use tv_safety_cleaner.Prelude.Json.{
  Json, null, bool, num, str, arr, obj, no_fields, items, fields, as_texts,
}
use tv_safety_cleaner.Exec.{Result, ok, err, Error, refusal, other, chain, refuse_if}

pub data PackageCategory : Type 0 where
  confirmed_safe probably_safe telemetry_candidate advertising_candidate : PackageCategory
  risky never_touch unknown : PackageCategory

abbrev pub protected_exact : List String
protected_exact =
    "android" ∷ "com.android.systemui" ∷ "com.android.settings" ∷ "com.android.packageinstaller"
    ∷ "com.android.permissioncontroller" ∷ "com.android.providers.downloads"
    ∷ "com.android.providers.media" ∷ "com.android.networkstack" ∷ "com.google.android.tvlauncher"
    ∷ "com.amazon.tv.launcher" ∷ "com.amazon.device.software.ota"
    ∷ "com.amazon.settings.systemupdates" ∷ []

abbrev pub protected_tokens : List String
protected_tokens =
    "launcher" ∷ "systemui" ∷ "settings" ∷ "packageinstaller" ∷ "permissioncontroller"
    ∷ "downloadprovider" ∷ "networkstack" ∷ "wifi" ∷ "bluetooth" ∷ "hdmi" ∷ "cec" ∷ "tuner"
    ∷ "livetv" ∷ "audio" ∷ "storage" ∷ "setupwizard" ∷ "recovery" ∷ []

unfoldable pub is_never_touch : String → Bool
unfolding lower has_substring
is_never_touch p =
    let lowered = lower (codes p) in
    any (λ exact. same_codes lowered (codes exact)) protected_exact
    || any (λ token. has_substring (codes token) lowered) protected_tokens

pub record PlannedOperation : Type 0 where
  pub package_id : String
  pub category : PackageCategory
  pub action : String

pub record VerifiedSnapshot : Type 0 where
  pub path : String
  pub manifest : Dict Json
  pub restore_plan : Dict Json

pub record DeviceProfile : Type 0 where
  pub path : String
  pub profile_id : String
  pub platform : String
  pub model : String
  pub firmware : String
  pub fingerprint : String
  pub verified : Bool
  pub recovery_status : String
  pub packages : Dict Json
  pub checks : Dict Json

pub record DryRunPlan : Type 0 where
  pub profile_id : String
  pub snapshot_fingerprint : String
  pub operations : List PlannedOperation
  pub restore_plan : Dict Json
  pub mutating_calls : ℕ
  pub mode : String

abbrev pub supported_platforms : List String
supported_platforms = "amazon-fire-os" ∷ "google-tv" ∷ "android-tv" ∷ "amazon-vega-os" ∷ []

-- `value not in SUPPORTED_PLATFORMS`; a list or a dict has no hash and raises a `TypeError`.
abbrev pub unsupported : Option Json → Result Bool
unsupported none = ok true
unsupported (some (str s)) = ok (not (contains s supported_platforms))
unsupported (some (arr _)) = err (other "unhashable type: 'list'")
unsupported (some (obj _)) = err (other "unhashable type: 'dict'")
unsupported (some _) = ok true

-- `text != value`
abbrev pub differs : String → Option Json → Bool
differs s (some (str t)) = not (s == t)
differs s _ = true

unfoldable pub verify_profile : DeviceProfile → VerifiedSnapshot → Result (Unit {0})
verify_profile p s = chain (unsupported (lookup "platform" s.manifest)) λ foreign.
    chain (refuse_if foreign (refusal "unsupported or unknown snapshot platform")) λ _.
      if differs p.platform (lookup "platform" s.manifest)
      then err (refusal "profile platform mismatch")
      else if differs p.model (lookup "model" s.manifest)
      then err (refusal "profile model mismatch")
      else if differs p.firmware (lookup "firmware" s.manifest)
      then err (refusal "profile firmware mismatch")
      else if differs p.fingerprint (lookup "fingerprint" s.manifest)
      then err (refusal "profile fingerprint mismatch")
      else if not p.verified
      then err (refusal "profile is not verified")
      else if not (p.recovery_status == "Verified on this device")
      then err (refusal "recovery readiness is insufficient")
      else ok tt

abbrev pub Policy : Type 0
Policy = Dict (List String)

abbrev pub malformed : Error
malformed = refusal "profile package policy is malformed"

-- One entry of the loop: `result[key] = values` if every value is a text.
abbrev pub add_category : String → Json → Policy → Result Policy
add_category key (arr values) result = elim (as_texts (items values)) [
  | none ↦ err malformed
  | some texts ↦ ok (insert key texts result)
]
add_category key _ result = err malformed

unfoldable pub read_policy : Dict Json → Policy → Result Policy
unfolding insert
read_policy [] result = ok result
read_policy ((key, values) ∷ rest) result =
    chain (add_category key values result) (read_policy rest)

abbrev pub policy_of : Option Json → Result Policy
policy_of none = ok []
policy_of (some (obj raw)) = read_policy (fields raw) []
policy_of (some _) = err malformed

-- `_packages`
unfoldable pub policy : DeviceProfile → Result Policy
policy p = policy_of (lookup "packages" p.packages)

unfoldable pub all_listed : Policy → List String
all_listed [] = []
all_listed ((_, values) ∷ rest) = values ++ all_listed rest

-- `set(names)`, as the list of its elements.
unfoldable pub distinct : List String → List String
distinct [] = []
distinct (x ∷ xs) = let rest = distinct xs in if contains x rest then rest else x ∷ rest

abbrev pub planned : String → PlannedOperation
planned p = record { package_id = p; category = confirmed_safe; action = "future-disable-request" }

-- `str(snapshot.manifest["fingerprint"])`, which has been checked to be the profile's text.
abbrev pub fingerprint_text : Option Json → String
fingerprint_text (some (str s)) = s
fingerprint_text _ = ""

-- `if protected: raise …(protected[0])`
abbrev pub refuse_protected : List String → Result (Unit {0})
refuse_protected [] = ok tt
refuse_protected (p ∷ _) = err (refusal ("never-touch package in profile: " <> p))

unfoldable pub check_policy : Policy → Result (List PlannedOperation)
check_policy listed =
    if not (length (all_listed listed) == length (distinct (all_listed listed)))
    then err (refusal "package appears in multiple policy categories")
    else chain (refuse_protected (select is_never_touch (all_listed listed)))
        λ _. ok (map planned (sort le_text (get_or [] "confirmed_safe" listed)))

unfoldable pub build_dry_run : DeviceProfile → VerifiedSnapshot → Bool → Bool → Result DryRunPlan
build_dry_run p s connection_verified authorization_verified = chain (verify_profile p s) λ _.
    chain (refuse_if (not connection_verified) (refusal "ADB connection is not verified")) λ _.
      chain (refuse_if (not authorization_verified) (refusal "ADB authorization is not verified"))
        λ _. chain (policy p) λ listed. chain (check_policy listed) λ operations. ok (record {
          profile_id = p.profile_id;
          snapshot_fingerprint = fingerprint_text (lookup "fingerprint" s.manifest);
          operations = operations;
          restore_plan = s.restore_plan;
          mutating_calls = 0;
          mode = "dry-run";
        })
