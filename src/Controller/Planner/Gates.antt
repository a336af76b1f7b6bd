-- ===== src/Controller/Planner/Gates.antt =====
-- What a dry-run plan has passed: the profile's gates and the never-touch rule.
use tv_safety_cleaner.Prelude.{
  ℕ, String, ◌≡◌, ◌↔◌, true, some, List, ◌++◌, string_eq, contains, codes, lower, has_substring,
  arith, or_right, any_of_contains,
}
use tv_safety_cleaner.Prelude.Dict.{lookup}
use tv_safety_cleaner.Prelude.Json.{str}
use tv_safety_cleaner.Prelude.Substring.{has_substring_of_append}
use tv_safety_cleaner.Exec.{ok}
use tv_safety_cleaner.Controller.Planner.{
  VerifiedSnapshot, DeviceProfile, is_never_touch, verify_profile, supported_platforms,
  protected_tokens,
}

-- The evidence in the snapshot agrees with the profile, and the profile is fit for use.
pub record Agrees (p : DeviceProfile) (s : VerifiedSnapshot) : Type 0 where
  pub platform : lookup "platform" s.manifest ≡ some (str p.platform)
  pub supported : contains p.platform supported_platforms ≡ true
  pub model : lookup "model" s.manifest ≡ some (str p.model)
  pub firmware : lookup "firmware" s.manifest ≡ some (str p.firmware)
  pub fingerprint : lookup "fingerprint" s.manifest ≡ some (str p.fingerprint)
  pub verified : p.verified ≡ true
  pub recovery : p.recovery_status ≡ "Verified on this device"

-- `verify_profile` lets a profile through exactly if all of that holds.
pub verify_iff :
    (p : DeviceProfile) (s : VerifiedSnapshot) → (verify_profile p s ≡ ok tt) ↔ Agrees p s
unfolding verify_profile
verify_iff p s = (
  λ h. record {
    platform = ground arith;
    supported = ground arith;
    model = ground arith;
    firmware = ground arith;
    fingerprint = ground arith;
    verified = ground arith;
    recovery = ground arith;
  },
  λ h. ground arith,
)

-- A package that has a protected token in its name, in any case, is never touched.
pub is_never_touch_of_token :
    (p token : String) (a b : List ℕ)
    → contains token protected_tokens ≡ true
    → lower (codes p) ≡ a ++ (codes token ++ b)
    → is_never_touch p ≡ true
unfolding is_never_touch
is_never_touch_of_token p token a b listed h = or_right _ _ (
    any_of_contains (λ t. has_substring (codes t) (lower (codes p))) token protected_tokens listed
      (rw h (has_substring_of_append a (codes token) b)))

-- Nor is one whose name differs from a protected one in case only.
pub is_never_touch_case :
    (p q : String) → lower (codes p) ≡ lower (codes q) → is_never_touch p ≡ is_never_touch q
unfolding is_never_touch
is_never_touch_case p q h = rw h
