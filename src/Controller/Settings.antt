-- ===== src/Controller/Settings.antt =====
-- `validate_downloader_endpoint`, `validate_adb_host` and `ApkSettingsStore` of
-- tv_controller/apk_manager.py. What `ipaddress` and `urlparse` answer are arguments.
use Prim.Native.Char.{Char, code}
use tv_safety_cleaner.Prelude.{
  ℕ, ◌<>◌, String, ◌≡◌, refl, Bool, false, Option, none, some, [], ◌∷◌, ◌&&◌, ◌||◌, ◌==◌, nat_eq,
  string_eq, String_discrete, if◌then◌else◌, is_empty, strip, show, leb,
}
use tv_safety_cleaner.Prelude.Integers.{ℤ, pos, negsuc, int_of}
use tv_safety_cleaner.Prelude.Dict.{Dict, lookup}
use tv_safety_cleaner.Prelude.Json.{Json, str, bool}
use tv_safety_cleaner.Exec.{Result, ok, err, value_error, chain}
use tv_safety_cleaner.Controller.Jobs.{ApkSettings}

-- `ipaddress.ip_address(text)`: what it prints as, and whether it is private.
pub record Address : Type 0 where
  pub text : String
  pub is_private : Bool

pub record EndpointUrl : Type 0 where
  pub scheme : String
  pub hostname : String
  pub path : String
  pub query : String

pub record NetLib : Type 0 where
  pub ip_address : String → Option Address
  -- `address in ip_network(cidr, strict=False)`, or nothing where it raises.
  pub in_network : Address → String → Option Bool
  pub parse_endpoint : String → EndpointUrl

-- `s.rstrip("?&")`
unfoldable pub rstrip_marks : String → String
rstrip_marks String.[] = ""
rstrip_marks (String.◌∷◌ c s) =
    let rest = rstrip_marks s in
    if is_empty rest && (code c == b'?' || code c == b'&') then "" else String.◌∷◌ c rest

abbrev is_approved : EndpointUrl → Bool
is_approved url =
    url.scheme == "https"
    && url.hostname == "online-apk-downloader.com"
    && url.path == "/apk-ajax&packageDownload"
    && is_empty url.query

unfoldable pub validate_downloader_endpoint : NetLib → String → Result String
unfolding rstrip_marks
validate_downloader_endpoint lib value =
    let endpoint = rstrip_marks (strip value) in
    if is_approved (lib.parse_endpoint endpoint)
    then ok endpoint
    else err (value_error "Downloader endpoint must use the approved HTTPS APK endpoint")

abbrev before_last : Char → Option (String × String) → Option (String × String)
before_last c none = none
before_last c (some (left, right)) = some (String.◌∷◌ c left, right)

-- `s.rpartition(":")`, where there is a colon.
unfoldable pub rpartition : String → Option (String × String)
rpartition String.[] = none
rpartition (String.◌∷◌ c s) =
    let later = rpartition s in
    elim later [
      | some parts ↦ before_last c (some parts)
      | none ↦ if code c == b':' then some ("", s) else none
    ]

abbrev host_and_port : String → String × String
host_and_port candidate = elim (rpartition candidate) [
  | none ↦ (candidate, "5555")
  | some parts ↦ parts
]

abbrev valid_port : Option ℤ → Result ℕ
valid_port none = err (value_error "ADB port must be numeric")
valid_port (some (negsuc n)) = err (value_error "ADB port is outside the valid range")
valid_port (some (pos n)) =
    if leb 1 n && leb n 65535 then ok n else err (value_error "ADB port is outside the valid range")

abbrev valid_address : Option Address → Result String
valid_address none = err (value_error "ADB host must be an IP address with an optional port")
valid_address (some address) =
    if address.is_private
    then ok address.text
    else err (value_error "ADB host must be a private-network IP address")

unfoldable pub validate_adb_host : NetLib → String → Result String
unfolding int_of rpartition
validate_adb_host lib value =
    let (host, port_text) = host_and_port (strip value) in
    chain (valid_address (lib.ip_address host))
      λ address. chain (valid_port (int_of port_text)) λ port. ok (address <> ":" <> show port)

abbrev pub default_settings : ApkSettings
default_settings = record {
  downloader_endpoint = "https://online-apk-downloader.com/apk-ajax&packageDownload";
  adb_host = "192.168.0.110:5555";
  sideload_enabled = false;
}

-- `str(data.get(key, default))` of a text; a value that is no text prints as nothing that is valid.
abbrev text_at : String → String → Dict Json → String
text_at default key settings = elim (lookup key settings) [
  | none ↦ default
  | some v ↦ elim v [ str s ↦ s | _ ↦ "" ]
]

abbrev is_true : Option Json → Bool
is_true (some (bool b)) = b
is_true _ = false

abbrev pub settings_object : String → String → Bool → Dict Json
settings_object endpoint host sideload =
    ("downloader_endpoint", str endpoint)
    ∷ ("adb_host", str host)
    ∷ ("sideload_enabled", bool sideload)
    ∷ []

module _ (lib : NetLib) where
  -- `ApkSettingsStore.save`: the object that it writes.
  unfoldable pub save_settings : ApkSettings → Result (Dict Json)
  unfolding validate_downloader_endpoint validate_adb_host
  save_settings settings =
      chain (validate_downloader_endpoint lib settings.downloader_endpoint) λ endpoint.
        chain (validate_adb_host lib settings.adb_host)
          λ host. ok (settings_object endpoint host settings.sideload_enabled)

  abbrev or_default : Result ApkSettings → ApkSettings
  or_default (ok settings) = settings
  or_default (err _) = default_settings

  -- `ApkSettingsStore.load`, of the object in the file, or of nothing that can be read.
  unfoldable pub load_settings : Option (Dict Json) → ApkSettings
  unfolding validate_downloader_endpoint validate_adb_host lookup
  load_settings none = default_settings
  load_settings (some settings) = or_default (
      chain
        (validate_downloader_endpoint lib
          (text_at default_settings.downloader_endpoint "downloader_endpoint" settings))
        λ endpoint.
          chain (validate_adb_host lib (text_at default_settings.adb_host "adb_host" settings))
            λ host. ok (record {
              downloader_endpoint = endpoint;
              adb_host = host;
              sideload_enabled = is_true (lookup "sideload_enabled" settings);
            }))

fields_read :
    (endpoint host : String) (sideload : Bool)
    → (text_at default_settings.downloader_endpoint "downloader_endpoint"
          (settings_object endpoint host sideload)
        ≡ endpoint)
      × (text_at default_settings.adb_host "adb_host" (settings_object endpoint host sideload)
          ≡ host)
      × (is_true (lookup "sideload_enabled" (settings_object endpoint host sideload)) ≡ sideload)
unfolding lookup String_discrete
fields_read endpoint host sideload = (refl, refl, refl)

module _ (lib : NetLib) where
  -- Settings whose address and host are accepted as they stand are saved, and what is saved is read
  -- back as the same settings.
  pub load_settings-save_settings :
      (s : ApkSettings)
      → validate_downloader_endpoint lib s.downloader_endpoint ≡ ok s.downloader_endpoint
      → validate_adb_host lib s.adb_host ≡ ok s.adb_host
      → (saved : Dict Json) × (save_settings lib s ≡ ok saved)
        × (load_settings lib (some saved) ≡ s)
  unfolding load_settings save_settings
  load_settings-save_settings s endpoint host =
      let saved = settings_object s.downloader_endpoint s.adb_host s.sideload_enabled in
      let (read_endpoint, read_host, read_sideload) =
        fields_read s.downloader_endpoint s.adb_host s.sideload_enabled in
      (
        saved,
        rw (endpoint, host) refl,
        rw (read_endpoint, read_host, read_sideload, endpoint, host) refl,
      )
