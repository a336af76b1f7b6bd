-- ===== src/Controller/Device.antt =====
-- What tv_controller/state_history.py records of a television: its identity and a package's state.
-- Two are the same when the dataclasses compare equal, that is field by field.
use tv_safety_cleaner.Prelude.{
  ℕ, String, Bool, false, HasEq, String_discrete, ℕ_discrete, Bool_discrete,
}

pub record DeviceIdentity : Type 0 where
  pub model : String
  pub platform : String
  pub firmware : String
  pub fingerprint : String

pub record PackageState : Type 0 where
  pub installed : Bool
  pub enabled : Bool
  pub third_party : Bool
  pub version_code : ℕ
  pub version_name : String

unfoldable pub DeviceIdentity_discrete : Discrete DeviceIdentity
unfolding String_discrete
DeviceIdentity_discrete = hlevel String_discrete

unfoldable pub PackageState_discrete : Discrete PackageState
unfolding String_discrete ℕ_discrete Bool_discrete
PackageState_discrete = hlevel (String_discrete, ℕ_discrete, Bool_discrete)

instance abbrev pub device_eq : HasEq DeviceIdentity
device_eq = record { dec_eq = DeviceIdentity_discrete }

instance abbrev pub state_eq : HasEq PackageState
state_eq = record { dec_eq = PackageState_discrete }

-- `PackageState(False, False, False)` with the dataclass's defaults.
abbrev pub absent : PackageState
absent = record {
  installed = false;
  enabled = false;
  third_party = false;
  version_code = 0;
  version_name = "unknown";
}
