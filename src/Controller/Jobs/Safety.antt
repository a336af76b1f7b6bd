-- ===== src/Controller/Jobs/Safety.antt =====
-- What the start methods refuse: nothing is sent to the TV and nothing is written.
use tv_safety_cleaner.Prelude.{
  ℕ, String, ◌≡◌, ◌≢◌, Bool, true, false, some, nat_eq, string_eq, arith,
}
use tv_safety_cleaner.Exec.{Exec, ok, ◌>>=◌}
use tv_safety_cleaner.Controller.Names.{parse_package_input}
use tv_safety_cleaner.Controller.Planner.{is_never_touch}
use tv_safety_cleaner.Controller.Jobs.{
  Manager, Host, require_sideload, resolve, find_apk, Apk, consult,
}
use tv_safety_cleaner.Controller.Jobs.Start.{
  start_install, start_uninstall, start_update, start_set_enabled, start_rollback,
}
use tv_safety_cleaner.Controller.Jobs.Profiles.{start_profile_apply}

abbrev pub Refused : {W : Type 0} → Exec (Manager W) String → Manager W → Type 0
Refused m s = ((task : String) → (m s).0 ≢ ok task) × ((m s).1 ≡ s)

module _ {W : Type 0} (host : Host W) where
  -- While sideloading is off, every operation that could change the TV is refused and changes nothing.
  pub sideload_off :
      (task text : String) (enabled : Bool) (i : ℕ) (s : Manager W)
      → s.settings.sideload_enabled ≡ false
      → Refused (start_install host task text) s
        × Refused (start_uninstall host task text) s
        × Refused (start_update host task text) s
        × Refused (start_set_enabled host task text enabled) s
        × Refused (start_rollback host task i) s
        × Refused (start_profile_apply host task text) s
  unfolding start_install start_uninstall start_update start_set_enabled start_rollback
      start_profile_apply require_sideload consult ◌>>=◌
  sideload_off task text enabled i s off = ground arith

  -- A request that names a never-touch package is refused, whatever the settings, before the TV is
  -- contacted and with nothing written.
  pub never_touch-Refused :
      (task text : String) (enabled : Bool) (p : String) (s : Manager W)
      → parse_package_input host.lib text ≡ ok p
      → is_never_touch p ≡ true
      → Refused (start_uninstall host task text) s
        × Refused (start_update host task text) s
        × Refused (start_set_enabled host task text enabled) s
  unfolding start_uninstall start_update start_set_enabled require_sideload consult ◌>>=◌
  never_touch-Refused task text enabled p s parsed never = ground arith

  -- So is the installation of an archive whose package is never-touch.
  pub never_touch_install :
      (task filename file : String) (apk : Apk) (s : Manager W)
      → resolve host.lib filename s.apks ≡ ok file
      → find_apk file s.apks ≡ some apk
      → parse_package_input host.lib apk.package_id ≡ ok apk.package_id
      → is_never_touch apk.package_id ≡ true
      → Refused (start_install host task filename) s
  unfolding start_install require_sideload consult ◌>>=◌
  never_touch_install task filename file apk s resolved found parsed never = ground arith
