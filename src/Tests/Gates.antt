-- ===== src/Tests/Gates.antt =====
-- The gates of the offline APK manager, the rate limiter, and the deletion of archives.
use tv_safety_cleaner.Prelude.{
  ℕ, ◌≡◌, refl, true, false, [], ◌∷◌, string_eq, contains, String_discrete, ℕ_discrete, arith, All,
  lower, has_substring, strip, ends_with,
}
use tv_safety_cleaner.Prelude.Dict.{get_or, lookup}
use tv_safety_cleaner.Exec.{ok, ◌>>=◌}
use tv_safety_cleaner.Controller.Names.{safe_apk_filename}
use tv_safety_cleaner.Controller.Planner.{is_never_touch}
use tv_safety_cleaner.Controller.Journal.{recent}
use tv_safety_cleaner.Controller.UserApk.{UserApkManager, install, uninstall, gate, is_safe_package}
use tv_safety_cleaner.Controller.UserApk.Gated.{uninstall_changed, install_changed}
use tv_safety_cleaner.Controller.RateLimit.{RateLimiter, IsBounded, requests, requests-IsBounded}
use tv_safety_cleaner.Controller.Jobs.{Manager, resolve, find_apk, consult}
use tv_safety_cleaner.Controller.Jobs.Archives.{
  NotNeeded, NotUsed, list_profiles, without, delete_local_apk, delete, refuse_needed, refuse_used,
  delete_local_apk_lem,
}
use tv_safety_cleaner.Controller.Device.{PackageState}
use tv_safety_cleaner.Tests.Data.{a_package, tv_host, manager_with, one_applied}

-- The world counts the adapter's calls.
abbrev counting : UserApkManager ℕ
counting = record {
  adapter = record {
    install_user = λ apk replace n. (ok tt, ℕ.suc n);
    uninstall_user = λ p n. (ok tt, ℕ.suc n);
  };
  feature_enabled = true;
  user_packages = a_package ∷ [];
  system_packages = [];
}

removal_runs : (uninstall counting a_package true false 0).1 ≡ 1
unfolding uninstall gate is_safe_package is_never_touch lower has_substring String_discrete
    ℕ_discrete ◌>>=◌
removal_runs = refl

uninstall_changed_example :
    (true ≡ true)
    × (true ≡ true)
    × (false ≡ false)
    × (is_safe_package a_package ≡ true)
    × (contains a_package (a_package ∷ []) ≡ true)
    × (is_never_touch a_package ≡ false)
uninstall_changed_example =
    uninstall_changed counting a_package true false 0 (λ e. ground (arith, removal_runs, e))

installation_runs : (install counting (λ _. ok a_package) "a.apk" true 0).1 ≡ 1
unfolding install gate is_never_touch lower has_substring ℕ_discrete ◌>>=◌
installation_runs = refl

install_changed_example :
    (true ≡ true)
    × (true ≡ true)
    × (contains a_package [] ≡ false)
    × (is_never_touch a_package ≡ false)
install_changed_example =
    install_changed counting (λ _. ok a_package) "a.apk" a_package true 0 refl
      (λ e. ground (arith, installation_runs, e))

abbrev limiter : RateLimiter
limiter = record { limit = 5; window = 60; events = [] }

limiter-IsBounded : IsBounded limiter
unfolding get_or lookup
limiter-IsBounded key = omega arith

requests-IsBounded_example : IsBounded (requests ((1, "a") ∷ (2, "a") ∷ (90, "b") ∷ []) limiter)
requests-IsBounded_example =
    requests-IsBounded ((1, "a") ∷ (2, "a") ∷ (90, "b") ∷ []) limiter limiter-IsBounded

abbrev keeper : Manager PackageState
keeper = manager_with true one_applied

-- The archive that the applied operation needs is refused under its name, but deleted when the request
-- has a space before it.
kept : (delete_local_apk tv_host "a-2.apk" keeper).1 ≡ keeper
unfolding delete_local_apk delete refuse_needed refuse_used list_profiles recent consult
    String_discrete ◌>>=◌
kept = refl

delete_local_apk_lem_example :
    All (NotNeeded "s-1.apk") (recent 10000 one_applied.rows)
    × All (λ entry. NotUsed "s-1.apk" entry.1) keeper.profiles
    × ((delete_local_apk tv_host "s-1.apk" keeper).1
        ≡ record keeper { apks = without "s-1.apk" keeper.apks })
delete_local_apk_lem_example =
    delete_local_apk_lem tv_host "s-1.apk" keeper
      (unfold resolve find_apk safe_apk_filename lower strip ends_with has_substring String_discrete
          ℕ_discrete in
        refl)
      (unfold delete_local_apk delete refuse_needed refuse_used list_profiles recent consult resolve
          find_apk safe_apk_filename lower strip ends_with has_substring String_discrete ℕ_discrete
          ◌>>=◌ in
        refl)

deleted : (delete_local_apk tv_host " a-2.apk" keeper).1.apks ≡ without "a-2.apk" keeper.apks
unfolding delete_local_apk delete refuse_needed refuse_used list_profiles recent consult resolve
    find_apk safe_apk_filename lower strip ends_with has_substring String_discrete ℕ_discrete ◌>>=◌
deleted = refl
