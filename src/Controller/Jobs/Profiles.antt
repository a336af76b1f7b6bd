-- ===== src/Controller/Jobs/Profiles.antt =====
-- State profiles in `ApkJobManager`: the preview, the gate before a profile is applied, and the
-- package by package application, which stops at the first failure.
use tv_safety_cleaner.Prelude.{
  ℕ, suc, ◌*◌, ◌/◌, show, length, String, ◌<>◌, Bool, true, Option, none, some, List, [], ◌∷◌, ◌++◌,
  not, ◌&&◌, ◌||◌, ◌==◌, nat_eq, string_eq, bool_eq, if◌then◌else◌, is_empty, codes, is_digit,
}
use tv_safety_cleaner.Prelude.Dict.{Dict, lookup}
use tv_safety_cleaner.Prelude.Json.{Json}
use tv_safety_cleaner.Exec.{Exec, Result, ok, err, refusal, pure, lift, raise_if, ◌>>=◌, ◌>>◌}
use tv_safety_cleaner.Controller.Device.{PackageState, device_eq}
use tv_safety_cleaner.Controller.Planner.{is_never_touch}
use tv_safety_cleaner.Controller.Journal.{Action, Inverse, NewOperation}
use tv_safety_cleaner.Controller.Jobs.{
  Adb, Manager, Host, Thread, StateProfile, ProfilePackage, on_tv, on_client, consult, gets,
  exact_apk, progress, with_detail, report, new_task, start, require_sideload, check_tv,
}
use tv_safety_cleaner.Controller.Jobs.Start.{install_inverse, enabled_inverse, begin_operation}
use tv_safety_cleaner.Controller.Jobs.Run.{
  recording, reporting, complete_operation, resolve_apk, set_enabled_and_record,
}

-- An entry of `operations` in the preview.
pub data Change : Type 0 where
  install restore_version enable disable : String → Change

pub record Preview : Type 0 where
  pub profile : StateProfile
  pub operations : List Change
  pub blockers : List String

-- [0-9TZ-]+
abbrev all_id_codes : List ℕ → Bool
all_id_codes [] = true
all_id_codes (c ∷ s) = (is_digit c || c == b'T' || c == b'Z' || c == b'-') && all_id_codes s

abbrev or_no_profile : Option StateProfile → Result StateProfile
or_no_profile none = err (refusal "profile does not exist")
or_no_profile (some p) = ok p

abbrev enabled_change : ProfilePackage → PackageState → List Change
enabled_change desired current =
    if current.installed && not (current.enabled == desired.enabled)
    then (if desired.enabled then enable desired.package_id else disable desired.package_id) ∷ []
    else []

-- The operations and the blockers of one package whose archive is known, from its current state.
unfoldable pub plan_package : ProfilePackage → PackageState → String → List Change × List String
plan_package desired current archived =
    if not current.installed
    then (install desired.package_id ∷ [], [])
    else if current.version_code == desired.version_code
    then (enabled_change desired current, [])
    else if is_empty archived
    then (
      [],
      (desired.package_id <> ": current version APK is missing, so rollback is impossible") ∷ [],
    )
    else (restore_version desired.package_id ∷ enabled_change desired current, [])

abbrev join : List Change × List String → List Change × List String → List Change × List String
join (a, b) (c, d) = (a ++ c, b ++ d)

-- A refused `begin` or a failed call stops a profile at the package where it happens.
abbrev pub change_request :
    StateProfile → ProfilePackage → PackageState → Action → Inverse → String → String → NewOperation
change_request profile desired current action inverse before_apk after_apk = record {
  package_id = desired.package_id;
  action = action;
  before = current;
  device = profile.device;
  before_apk = before_apk;
  after_apk = after_apk;
  batch_id = profile.id;
  parent_id = none;
  inverse_action = inverse;
}

module _ {W : Type 0} (host : Host W) where
  -- `StateProfileStore.get`
  unfoldable pub get_profile : String → Exec (Manager W) StateProfile
  unfolding lookup
  get_profile i = consult λ s.
      if is_empty i || not (all_id_codes (codes i))
      then err (refusal "profile identifier is invalid")
      else or_no_profile (lookup i s.profiles)

  module _ (client : Adb W) where
    unfoldable pub preview_package : ProfilePackage → Exec (Manager W) (List Change × List String)
    unfolding plan_package
    preview_package desired =
        if is_never_touch desired.package_id
        then pure ([], (desired.package_id <> ": never-touch package is prohibited") ∷ [])
        else (do
          current ← on_tv (client.package_state desired.package_id)
          archived ← gets (λ t. exact_apk desired.package_id current.version_code t.apks)
          pure (
              if is_empty desired.apk_file
              then ([], (desired.package_id <> ": exact APK archive is missing") ∷ [])
              else plan_package desired current archived))

    unfoldable pub preview_packages :
        List ProfilePackage → Exec (Manager W) (List Change × List String)
    unfolding preview_package
    preview_packages [] = pure ([], [])
    preview_packages (desired ∷ rest) = do
      first ← preview_package desired
      others ← preview_packages rest
      pure (join first others)

    -- The first half of `_apply_profile_package`: install the profile's version.
    unfoldable pub install_version :
        StateProfile → ProfilePackage → PackageState → String → Exec (Manager W) PackageState
    install_version profile desired current before_apk = do
      op ← begin_operation host (
          change_request profile desired current
            (if current.installed then Action.profile_update else Action.profile_install)
            (install_inverse current.installed) before_apk desired.apk_file)
      recording host op (do
        apk ← resolve_apk host desired.apk_file
        output ← on_tv (client.install apk desired.package_id)
        after ← on_tv (client.package_state desired.package_id)
        raise_if (not after.installed || not (after.version_code == desired.version_code))
            (refusal (desired.package_id <> ": installed version does not match the profile"))
        complete_operation host op after (install_inverse current.installed)
        pure after)

    unfoldable pub reach_version :
        StateProfile → ProfilePackage → PackageState → Exec (Manager W) PackageState
    unfolding install_version
    reach_version profile desired current =
        if not current.installed || not (current.version_code == desired.version_code)
        then (do
          before_apk ← gets (λ t.
              if current.installed
              then exact_apk desired.package_id current.version_code t.apks
              else "")
          raise_if (current.installed && is_empty before_apk) (
              refusal
                (desired.package_id <> ": current exact APK disappeared; profile apply stopped"))
          install_version profile desired current before_apk)
        else pure current

    -- The second half: set the enabled state.
    unfoldable pub reach_enabled :
        StateProfile → ProfilePackage → PackageState → Exec (Manager W) (Unit {0})
    reach_enabled profile desired current =
        if current.enabled == desired.enabled then pure tt else (do
          op ← begin_operation host (
              change_request profile desired current
                (if desired.enabled then Action.profile_enable else Action.profile_disable)
                (enabled_inverse desired.enabled) desired.apk_file "")
          recording host op (
              set_enabled_and_record host client op desired.package_id desired.enabled
                (enabled_inverse desired.enabled)
                (refusal (desired.package_id <> ": enabled state does not match the profile")))
          pure tt)

    -- `_apply_profile_package`
    unfoldable pub apply_package : StateProfile → ProfilePackage → Exec (Manager W) (Unit {0})
    unfolding reach_version reach_enabled
    apply_package profile desired = do
      current ← on_tv (client.package_state desired.package_id)
      reached ← reach_version profile desired current
      reach_enabled profile desired reached

    -- What the loop reports after package number `index`; the quotient is the exact one, where the
    -- source rounds `index / total * 99` in floating point.
    abbrev pub applying : ℕ → ℕ → String → Dict Json
    applying index total p =
        with_detail (show index <> " / " <> show total <> " · " <> p)
          (progress "applying-profile" "Applying exact state profile" (index * 99 / total))

    -- The loop of the thread, from package number `index` on.
    unfoldable pub apply_packages :
        String → StateProfile → ℕ → List ProfilePackage → Exec (Manager W) (Unit {0})
    apply_packages task profile index [] = pure tt
    apply_packages task profile index (desired ∷ rest) = do
      apply_package profile desired
      report host task (applying index (length profile.packages) desired.package_id)
      apply_packages task profile (suc index) rest

    unfoldable pub run_apply_profile : String → StateProfile → Exec (Manager W) (Unit {0})
    run_apply_profile task profile = reporting host task "Profile apply stopped" (do
      apply_packages task profile 1 profile.packages
      report host task (with_detail profile.name (progress "result" "State profile applied" 100)))

  unfoldable pub with_client : {A : Type 0} → (Adb W → Exec (Manager W) A) → Exec (Manager W) A
  with_client f s = f (host.client s.settings.adb_host) s

  -- `profile_preview`
  unfoldable pub profile_preview : String → Exec (Manager W) Preview
  profile_preview i = do
    profile ← get_profile i
    check_tv host
    device ← on_client host (λ client. client.device_identity)
    raise_if (not (device == profile.device))
        (refusal "profile model, firmware, or fingerprint does not match this TV")
    found ← with_client (λ client. preview_packages client profile.packages)
    pure (record { profile = profile; operations = found.0; blockers = found.1 })

  -- `if blockers: raise ControllerRefusal(str(blockers[0]))`
  abbrev pub refuse_blocked : List String → Result (Unit {0})
  refuse_blocked [] = ok tt
  refuse_blocked (reason ∷ _) = err (refusal reason)

  unfoldable pub start_profile_apply : String → String → Exec (Manager W) String
  start_profile_apply task i = do
    require_sideload host
    preview ← profile_preview i
    lift (refuse_blocked preview.blockers)
    check_tv host
    new_task host task "profile.restore" "profile-apply"
    start host task (Thread.apply_profile preview.profile)
    pure task
