-- ===== src/Controller/UserApk/Gated.antt =====
-- What has to hold before the adapter is called.
use tv_safety_cleaner.Prelude.{String, ◌≡◌, ◌≢◌, Bool, true, false, string_eq, contains, arith}
use tv_safety_cleaner.Exec.{Result, ok, ◌>>=◌}
use tv_safety_cleaner.Controller.Planner.{is_never_touch}
use tv_safety_cleaner.Controller.UserApk.{UserApkManager, gate, install, uninstall, is_safe_package}

module _ {W : Type 0} (m : UserApkManager W) where
  -- If a removal changed anything, the feature is enabled, the removal was confirmed and is of no
  -- system app, and the package is a known user package that is not never-touch.
  pub uninstall_changed :
      (p : String) (confirmed system_app : Bool) (w : W)
      → (uninstall m p confirmed system_app w).1 ≢ w
      → (m.feature_enabled ≡ true)
        × (confirmed ≡ true)
        × (system_app ≡ false)
        × (is_safe_package p ≡ true)
        × (contains p m.user_packages ≡ true)
        × (is_never_touch p ≡ false)
  unfolding uninstall gate ◌>>=◌
  uninstall_changed p confirmed system_app w h = ground arith

  -- If an installation changed anything, the feature is enabled, the installation was confirmed, and
  -- the archive's package is neither a system package nor never-touch.
  pub install_changed :
      (inspect : String → Result String) (apk p : String) (confirmed : Bool) (w : W)
      → inspect apk ≡ ok p
      → (install m inspect apk confirmed w).1 ≢ w
      → (m.feature_enabled ≡ true)
        × (confirmed ≡ true)
        × (contains p m.system_packages ≡ false)
        × (is_never_touch p ≡ false)
  unfolding install gate ◌>>=◌
  install_changed inspect apk p confirmed w known h = ground arith
