-- ===== src/Controller/Jobs/Start.antt =====
-- The `start_*` methods of `ApkJobManager`: the checks that come before a thread is started.
use tv_safety_cleaner.Prelude.{
  ℕ, String, Bool, true, false, Option, none, some, not, ◌&&◌, ◌==◌, nat_eq, string_eq, bool_eq,
  if◌then◌else◌, is_empty,
}
use tv_safety_cleaner.Exec.{Exec, Result, ok, err, refusal, pure, lift, raise_if, ◌>>=◌, ◌>>◌}
use tv_safety_cleaner.Controller.Device.{DeviceIdentity, PackageState, device_eq, state_eq}
use tv_safety_cleaner.Controller.Names.{parse_package_input}
use tv_safety_cleaner.Controller.Planner.{is_never_touch}
use tv_safety_cleaner.Controller.Journal.{
  Row, Action, Inverse, NewOperation, begin, get, prepare_selective_rollback, reconcile_no_change,
  is_uncertain,
}
use tv_safety_cleaner.Controller.Jobs.{
  Manager, Host, Apk, Thread, on_journal, on_client, consult, gets, exact_apk, find_apk, resolve,
  progress, with_detail, report, new_task, start, require_sideload, check_tv,
}

-- What `_mutation_context` returns.
pub record Context : Type 0 where
  pub device : DeviceIdentity
  pub before : PackageState
  pub before_apk : String

-- `if metadata is None or metadata["package"] == "unknown": raise …`
abbrev package_of : Option Apk → Result String
package_of none = err (refusal "APK package metadata is unavailable")
package_of (some apk) =
    if apk.package_id == "unknown"
    then err (refusal "APK package metadata is unavailable")
    else ok apk.package_id

abbrev pub is_third_party : PackageState → Bool
is_third_party s = s.installed && s.third_party

abbrev pub install_inverse : Bool → Inverse
install_inverse true = Inverse.restore_apk
install_inverse false = Inverse.uninstall

abbrev pub install_action : Bool → Action
install_action true = Action.update
install_action false = Action.install

abbrev pub enabled_action : Bool → Action
enabled_action true = Action.enable
enabled_action false = Action.disable

-- What undoes setting the state to `enabled`.
abbrev pub enabled_inverse : Bool → Inverse
enabled_inverse true = Inverse.disable
enabled_inverse false = Inverse.enable

-- The arguments of `begin` that the web operations do not give keep their defaults.
abbrev pub operation : String → Action → Inverse → Context → String → NewOperation
operation p action inverse c after_apk = record {
  package_id = p;
  action = action;
  before = c.before;
  device = c.device;
  before_apk = c.before_apk;
  after_apk = after_apk;
  batch_id = "";
  parent_id = none;
  inverse_action = inverse;
}

module _ {W : Type 0} (host : Host W) where
  unfoldable pub begin_operation : NewOperation → Exec (Manager W) ℕ
  begin_operation new = on_journal host (λ now. begin now new)

  -- `_mutation_context`
  unfoldable pub mutation_context : String → Bool → Exec (Manager W) Context
  mutation_context p require_archive = do
    device ← on_client host (λ client. client.device_identity)
    before ← on_client host (λ client. client.package_state p)
    before_apk ← gets (λ s. if before.installed then exact_apk p before.version_code s.apks else "")
    raise_if (require_archive && before.installed && is_empty before_apk)
        (refusal "Exact pre-change APK is not archived; this operation would not be reversible")
    pure (record { device = device; before = before; before_apk = before_apk })

  unfoldable pub start_install : String → String → Exec (Manager W) String
  start_install task filename = do
    require_sideload host
    apk ← consult (λ s. resolve host.lib filename s.apks)
    named ← consult (λ s. package_of (find_apk apk s.apks))
    p ← lift (parse_package_input host.lib named)
    raise_if (is_never_touch p) (refusal "Install/update targets a never-touch package")
    check_tv host
    c ← mutation_context p true
    op ←
        begin_operation (
          operation p (install_action c.before.installed) (install_inverse c.before.installed) c
            apk)
    new_task host task p "install"
    start host task (Thread.install op apk p c.before.installed)
    pure task

  unfoldable pub start_uninstall : String → String → Exec (Manager W) String
  start_uninstall task text = do
    require_sideload host
    p ← lift (parse_package_input host.lib text)
    raise_if (is_never_touch p) (refusal "Uninstall targets a never-touch package")
    check_tv host
    c ← mutation_context p true
    raise_if (not (is_third_party c.before))
        (refusal "Only an installed third-party package can be uninstalled")
    op ← begin_operation (operation p Action.uninstall Inverse.install_apk c "")
    new_task host task p "uninstall"
    start host task (Thread.uninstall op p)
    pure task

  unfoldable pub start_update : String → String → Exec (Manager W) String
  start_update task text = do
    require_sideload host
    p ← lift (parse_package_input host.lib text)
    raise_if (is_never_touch p) (refusal "Install/update targets a never-touch package")
    check_tv host
    c ← mutation_context p true
    raise_if (not (is_third_party c.before))
        (refusal "Only an installed third-party package can be updated")
    new_task host task p "update"
    endpoint ← gets (λ s. s.settings.downloader_endpoint)
    start host task (Thread.update endpoint p c.before c.device c.before_apk)
    pure task

  unfoldable pub start_download : String → String → Exec (Manager W) String
  start_download task text = do
    p ← lift (parse_package_input host.lib text)
    new_task host task p "download"
    endpoint ← gets (λ s. s.settings.downloader_endpoint)
    start host task (Thread.download endpoint p)
    pure task

  unfoldable pub start_check_update : String → String → Exec (Manager W) String
  start_check_update task text = do
    endpoint ← gets (λ s. s.settings.downloader_endpoint)
    p ← lift (parse_package_input host.lib text)
    check_tv host
    new_task host task p "check-update"
    start host task (Thread.check_update endpoint p)
    pure task

  unfoldable pub start_set_enabled : String → String → Bool → Exec (Manager W) String
  start_set_enabled task text enabled = do
    require_sideload host
    p ← lift (parse_package_input host.lib text)
    raise_if (is_never_touch p) (refusal "Package controls target a never-touch package")
    check_tv host
    c ← mutation_context p false
    raise_if (not (is_third_party c.before))
        (refusal "Only an installed third-party package can be controlled")
    raise_if (c.before.enabled == enabled)
        (refusal "Package already has the requested enabled state")
    op ← begin_operation (operation p (enabled_action enabled) (enabled_inverse enabled) c "")
    new_task host task p (if enabled then "enable" else "disable")
    start host task (Thread.set_enabled op p enabled)
    pure task

  -- The branch of `start_rollback` for an operation that turns out not to have changed the TV.
  unfoldable pub reconcile : String → Row → Exec (Manager W) String
  reconcile task original = do
    on_journal host (λ now. reconcile_no_change now original.id)
    new_task host task original.package_id "reconcile"
    report host task (
        with_detail "Live TV state already matches the recorded before-state"
          (progress "result" "No rollback needed" 100))
    pure task

  -- The arguments of `begin` for the rollback of `original`.
  abbrev pub rollback_of : Row → PackageState → DeviceIdentity → NewOperation
  rollback_of original current device = record {
    package_id = original.package_id;
    action = Action.rollback original.action;
    before = current;
    device = device;
    before_apk = original.after_apk;
    after_apk = original.before_apk;
    batch_id = "";
    parent_id = some original.id;
    inverse_action = Inverse.nothing;
  }

  unfoldable pub begin_rollback :
      String → Row → PackageState → DeviceIdentity → Exec (Manager W) String
  begin_rollback task original current device = do
    rollback_id ← begin_operation (rollback_of original current device)
    new_task host task original.package_id "rollback"
    start host task (Thread.rollback rollback_id original)
    pure task

  unfoldable pub start_rollback : String → ℕ → Exec (Manager W) String
  start_rollback task i = do
    require_sideload host
    check_tv host
    original ← consult (λ s. get i s.journal)
    current ← on_client host (λ client. client.package_state original.package_id)
    device ← on_client host (λ client. client.device_identity)
    checked ← consult (λ s. prepare_selective_rollback i current device s.journal)
    if is_uncertain checked.status && current == checked.before
        then reconcile task checked
        else begin_rollback task checked current device
