-- ===== src/Observer/Recovery.antt =====
-- tv_observer/recovery.py: the checklist of recovery readiness. A report is the list of its items;
-- the texts of the statuses stand for the statuses themselves.
use tv_safety_cleaner.Prelude.{
  String, Bool, true, false, List, [], ◌∷◌, map, not, ◌&&◌, ◌==◌, string_eq, if◌then◌else◌,
}
use tv_safety_cleaner.Exec.{Result, ok, err, value_error}

abbrev pub readiness_items : List String
readiness_items =
    "model identified" ∷ "platform identified" ∷ "firmware identified" ∷ "baseline snapshot created"
    ∷ "snapshot checksum verified" ∷ "ADB reconnect verified" ∷ "standard reset documented"
    ∷ "physical or remote reset documented" ∷ "factory reset manually verified"
    ∷ "ADB re-enable after reset documented" ∷ "launcher checked" ∷ "Settings checked"
    ∷ "network checked" ∷ "HDMI checked manually" ∷ "tuner checked manually"
    ∷ "sound checked manually" ∷ "OTA checked manually" ∷ []

pub data ReadinessStatus : Type 0 where
  not_checked documented partial verified failed : ReadinessStatus

pub record ReadinessItem : Type 0 where
  pub name : String
  pub status : ReadinessStatus
  pub evidence : String

pub record ReadinessReport : Type 0 where
  pub allowed_statuses : List ReadinessStatus
  pub items : List ReadinessItem

unfoldable pub assess_readiness : List ReadinessItem → ReadinessReport
assess_readiness items = record {
  allowed_statuses = not_checked ∷ documented ∷ partial ∷ verified ∷ failed ∷ [];
  items = items;
}

abbrev unchecked : String → ReadinessItem
unchecked name = record { name = name; status = not_checked; evidence = "" }

unfoldable pub default_readiness_report : ReadinessReport
unfolding assess_readiness
default_readiness_report = assess_readiness (map unchecked readiness_items)

abbrev is_verified : ReadinessStatus → Bool
is_verified verified = true
is_verified _ = false

unfoldable pub factory_reset_drill_status : ReadinessStatus → String → Result ReadinessStatus
factory_reset_drill_status requested evidence_type =
    if is_verified requested && not (evidence_type == "manual-device-drill")
    then err (value_error "factory reset verification requires a manual drill on this device")
    else ok requested
