-- ===== src/Controller/UserApk.antt =====
-- `UserApkManager` of tv_controller/apk.py: the gates before a user's APK is installed, updated or
-- removed by an adapter. `inspect` stands for `inspect_apk`, which opens the archive and gives the
-- name of its package.
pub mod Gated
use tv_safety_cleaner.Prelude.{
  ℕ, String, Bool, true, false, List, [], ◌∷◌, not, ◌&&◌, ◌||◌, ◌==◌, nat_eq, string_eq,
  if◌then◌else◌, contains, codes, is_word, is_empty,
}
use tv_safety_cleaner.Exec.{Exec, Result, ok, err, refusal, lift, raise_if, refuse_if, ◌>>=◌, ◌>>◌}
use tv_safety_cleaner.Controller.Planner.{is_never_touch}

pub record UserApkAdapter (W : Type 0) : Type 0 where
  pub install_user : (apk : String) → (replace : Bool) → Exec W (Unit {0})
  pub uninstall_user : String → Exec W (Unit {0})

pub record UserApkManager (W : Type 0) : Type 0 where
  pub adapter : UserApkAdapter W
  pub feature_enabled : Bool
  pub user_packages : List String
  pub system_packages : List String

-- [A-Za-z0-9._]+
abbrev all_package_codes : List ℕ → Bool
all_package_codes [] = true
all_package_codes (c ∷ s) = (is_word c || c == b'.') && all_package_codes s

unfoldable pub is_safe_package : String → Bool
is_safe_package p = not (is_empty p) && all_package_codes (codes p)

module _ {W : Type 0} (m : UserApkManager W) where
  -- `_gate`
  unfoldable pub gate : Bool → Bool → Exec W (Unit {0})
  gate confirmed system_app = do
    raise_if system_app (refusal "system APK removal is prohibited")
    raise_if (not m.feature_enabled) (refusal "user APK changes feature is disabled")
    raise_if (not confirmed) (refusal "explicit confirmation is required")

  module _ (inspect : String → Result String) where
    unfoldable pub install : String → Bool → Exec W (Unit {0})
    unfolding gate
    install apk confirmed = do
      gate confirmed false
      p ← lift (inspect apk)
      raise_if (contains p m.system_packages || is_never_touch p)
          (refusal "APK targets a system or never-touch package")
      m.adapter.install_user apk false

    unfoldable pub update : String → Bool → Exec W (Unit {0})
    unfolding gate
    update apk confirmed = do
      gate confirmed false
      p ← lift (inspect apk)
      raise_if (not (contains p m.user_packages))
          (refusal "APK update requires a verified user package")
      m.adapter.install_user apk true

  unfoldable pub uninstall : String → Bool → Bool → Exec W (Unit {0})
  unfolding gate
  uninstall p confirmed system_app = do
    gate confirmed system_app
    raise_if (not (is_safe_package p)) (refusal "invalid user package name")
    raise_if (not (contains p m.user_packages) || is_never_touch p)
        (refusal "system or unknown APK removal is prohibited")
    m.adapter.uninstall_user p
