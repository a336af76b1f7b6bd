-- ===== src/Controller/Web/Handlers.antt =====
-- The handlers of the routes of tv_controller/service.py, and what they answer.
use tv_safety_cleaner.Prelude.{
  ℕ, suc, ◌<>◌, String, Option, none, some, List, [], ◌∷◌, ◌++◌, not, ◌||◌, ◌==◌, string_eq,
  if◌then◌else◌, contains, is_empty, strip, show, split_lines, length, nat_eq,
}
use tv_safety_cleaner.Prelude.Integers.{ℤ, pos, negsuc, int_of, show_int}
use tv_safety_cleaner.Prelude.Dict.{get_or}
use tv_safety_cleaner.Exec.{
  Exec, Result, ok, err, Error, refusal, value_error, adb_error, other, message, chain, pure, lift,
  raise_if, ◌>>=◌, ◌>>◌,
}
use tv_safety_cleaner.Controller.Journal.{or_missing}
use tv_safety_cleaner.Controller.Names.{UrlLib, parse_package_input}
use tv_safety_cleaner.Controller.Settings.{
  NetLib, validate_downloader_endpoint, validate_adb_host, save_settings as save_to, load_settings,
}
use tv_safety_cleaner.Controller.Jobs.{
  Manager, Host, StateProfile, ApkSettings, require_sideload, check_tv,
}
use tv_safety_cleaner.Controller.Jobs.Start.{
  start_install, start_uninstall, start_update, start_download, start_check_update,
  start_set_enabled, start_rollback,
}
use tv_safety_cleaner.Controller.Jobs.Profiles.{get_profile, profile_preview, start_profile_apply}
use tv_safety_cleaner.Controller.Jobs.Archives.{delete_local_apk}
use tv_safety_cleaner.Controller.Service.{clear_tasks}
use tv_safety_cleaner.Controller.Web.{
  Route, page, preflight, clear_finished, download, delete, install, uninstall, check_update,
  update, package_state, rollback, profile_apply, Visit, Response, shown, answered, crashed, field,
}

-- The lines of the form's text, each package once.
abbrev with_package : List String → String → List String
with_package found p = if contains p found then found else found ++ (p ∷ [])

abbrev packages_in : UrlLib → List String → List String → Result (List String)
packages_in lib found [] = ok found
packages_in lib found (line ∷ lines) =
    let skipped = packages_in lib found lines in
    if is_empty (strip line)
    then skipped
    else chain (parse_package_input lib line) λ p. packages_in lib (with_package found p) lines

abbrev some_package : List String → Result (List String)
some_package [] = err (value_error "Enter at least one package ID or Google Play URL")
some_package (p ∷ packages) = ok (p ∷ packages)

unfoldable pub parse_package_inputs : UrlLib → String → Result (List String)
unfolding split_lines
parse_package_inputs lib value = chain (packages_in lib [] (split_lines value)) some_package

-- `int(form.get(key, default))`
abbrev pub number_in : String → Result ℤ
number_in text = elim (int_of text) [
  | none ↦ err (value_error ("invalid literal for int() with base 10: '" <> text <> "'"))
  | some n ↦ ok n
]

-- `if form.get("confirmation") != expected: raise ControllerRefusal(reason)`
abbrev pub confirmed : {W : Type 0} → Visit → String → String → Exec (Manager W) (Unit {0})
confirmed v expected reason = raise_if (not (field "confirmation" v == expected)) (refusal reason)

abbrev queued : String → String → Response
queued text task = answered 202 text (some task)

abbrev done : String → Response
done text = answered 200 text none

-- `except (OSError, ValueError, ControllerRefusal)`; any other exception is not handled.
abbrev pub refused : Error → Response
refused (other e) = crashed e
refused (adb_error e) = crashed e
refused e = answered 400 (message e) none

-- `except ControllerRefusal` only.
abbrev pub not_ready : Error → Response
not_ready (refusal e) = answered 409 e none
not_ready e = crashed (message e)

abbrev pub page_error : Error → Response
page_error (refusal e) = shown "section"
page_error e = crashed (message e)

-- The response that an action of the manager leaves behind, whether it returned or raised.
abbrev pub respond :
    {W : Type 0} → (Error → Response) → Exec (Manager W) Response → Manager W → Response × Manager W
respond otherwise m s =
    let (r, t) = m s in (elim r [ ok response ↦ response | err e ↦ otherwise e ], t)

module _ {W : Type 0} (host : Host W) where
  -- One download for each package; what was started before a failure stays started.
  unfoldable pub start_downloads : (ℕ → String) → ℕ → List String → Exec (Manager W) (List String)
  start_downloads task n [] = pure []
  start_downloads task n (p ∷ packages) = do
    first ← start_download host (task n) p
    others ← start_downloads task (suc n) packages
    pure (first ∷ others)

  abbrev first_of : List String → Option String
  first_of [] = none
  first_of (task ∷ _) = some task

  -- `start_rollback` of a number that no row has.
  abbrev no_rollback : Exec (Manager W) String
  no_rollback = do require_sideload host; check_tv host; row ← lift (or_missing none); pure ""

  abbrev pub rollback_by : String → ℤ → Exec (Manager W) String
  rollback_by task (pos i) = start_rollback host task i
  rollback_by task (negsuc n) = no_rollback

  -- The `try` blocks of the handlers of the actions.
  abbrev pub apk_download : Visit → Exec (Manager W) Response
  apk_download v = do
    packages ← lift (parse_package_inputs host.lib (field "packages" v))
    tasks ← start_downloads v.task 0 packages
    pure (answered 202 ("APK downloads started: " <> show (length packages)) (first_of tasks))

  abbrev apk_delete : Visit → Exec (Manager W) Response
  apk_delete v = do
    confirmed v "delete-local-apk" "Confirm local APK deletion"
    delete_local_apk host (field "file" v)
    pure (done "Local APK deleted. The TV was not changed.")

  abbrev apk_install : Visit → Exec (Manager W) Response
  apk_install v = do
    confirmed v "install-apk" "Confirm APK installation on the TV"
    task ← start_install host (v.task 0) (field "file" v)
    pure (queued "APK installation queued." task)

  abbrev apk_uninstall : Visit → Exec (Manager W) Response
  apk_uninstall v = do
    confirmed v "uninstall-user-app" "Confirm third-party application removal from the TV"
    task ← start_uninstall host (v.task 0) (field "package" v)
    pure (queued "Third-party application uninstall queued." task)

  abbrev apk_check_update : Visit → Exec (Manager W) Response
  apk_check_update v = do
    task ← start_check_update host (v.task 0) (field "package" v)
    pure (queued "Update check started." task)

  abbrev apk_update : Visit → Exec (Manager W) Response
  apk_update v = do
    confirmed v "update-apk" "Confirm APK update on the TV"
    task ← start_update host (v.task 0) (field "package" v)
    pure (queued "APK download and update queued." task)

  abbrev package_state_change : Visit → Exec (Manager W) Response
  package_state_change v = do
    raise_if (not (field "action" v == "enable" || field "action" v == "disable"))
        (refusal "Package state action is invalid")
    confirmed v "change-user-package-state" "Confirm the user-package state change"
    task ←
        start_set_enabled host (v.task 0) (strip (field "package" v)) (field "action" v == "enable")
    pure (queued ("Package " <> field "action" v <> " queued.") task)

  abbrev pub confirmed_rollback : Visit → ℤ → Exec (Manager W) Response
  confirmed_rollback v i = do
    confirmed v ("rollback-" <> show_int i) "Confirm the selected rollback"
    task ← rollback_by (v.task 0) i
    pure (queued "Selective rollback queued." task)

  abbrev pub journal_rollback : Visit → Exec (Manager W) Response
  journal_rollback v = do
    i ← lift (number_in (get_or "0" "operation_id" v.form))
    confirmed_rollback v i

  abbrev pub apply_found : Visit → StateProfile → Exec (Manager W) Response
  apply_found v profile = do
    raise_if (not (strip (field "confirmation" v) == profile.name))
        (refusal "Type the exact profile name to confirm")
    task ← start_profile_apply host (v.task 0) (field "profile_id" v)
    pure (queued "Profile application queued." task)

  abbrev pub apply_profile : Visit → Exec (Manager W) Response
  apply_profile v = do profile ← get_profile host (field "profile_id" v); apply_found v profile

  abbrev apk_preflight : Visit → Exec (Manager W) Response
  apk_preflight v = do check_tv host; pure (done "TV is online and ADB is authorized.")

  abbrev apk_tasks_clear : Visit → Exec (Manager W) Response
  apk_tasks_clear v = do
    removed ← clear_tasks
    pure (done ("Cleared " <> show removed <> " completed or failed operation(s)."))

  -- The part of `render_section` that asks the manager.
  abbrev preview_section : String → Exec (Manager W) Response
  preview_section profile = do preview ← profile_preview host profile; pure (shown "section")

  unfoldable pub action : Route → Visit → Exec (Manager W) Response
  unfolding start_downloads parse_package_inputs get_or
  action download v = apk_download v
  action delete v = apk_delete v
  action install v = apk_install v
  action uninstall v = apk_uninstall v
  action check_update v = apk_check_update v
  action update v = apk_update v
  action package_state v = package_state_change v
  action rollback v = journal_rollback v
  action profile_apply v = apply_profile v
  action preflight v = apk_preflight v
  action clear_finished v = apk_tasks_clear v
  action (page (some profile)) v = preview_section profile
  action _ v = pure (shown "page")

-- The exceptions that the handler of a route answers.
abbrev pub handler_of : Route → Error → Response
handler_of preflight = not_ready
handler_of clear_finished = λ e. crashed (message e)
handler_of _ = refused

module _ (net : NetLib) where
  -- `save_controller_settings`
  abbrev pub settings_of : Visit → Result ApkSettings
  settings_of v =
      chain (validate_downloader_endpoint net (field "downloader_endpoint" v)) λ endpoint.
        chain (validate_adb_host net (field "adb_host" v)) λ address. ok (record {
          downloader_endpoint = endpoint;
          adb_host = address;
          sideload_enabled = field "sideload_enabled" v == "true";
        })

  -- The settings' file is written, and read again when they are next used.
  unfoldable pub save : {W : Type 0} → Visit → Manager W → Manager W
  unfolding validate_downloader_endpoint validate_adb_host get_or
  save v s = elim (chain (settings_of v) (save_to net)) [
    | err e ↦ s
    | ok saved ↦ record s { settings = load_settings net (some saved) }
  ]
