-- ===== src/Observer/ReadOnlyAdb.antt =====
-- `ReadOnlyAdb` of tv_observer/adb.py. The runner, `subprocess.run`, is a parameter: a call gives what
-- the process printed, or nothing when it timed out.
pub mod Reads
use tv_safety_cleaner.Prelude.{
  ℕ, ◌+◌, ◌<>◌, String, Bool, true, false, Option, none, some, List, [], ◌∷◌, ◌++◌, not, ◌&&◌, ◌||◌,
  ◌==◌, nat_eq, string_eq, if◌then◌else◌, codes, all, ltb, leb, strip, is_empty, is_word, prefix_of,
  contains,
}
use tv_safety_cleaner.Exec.{
  Exec, Result, ok, err, adb_error, chain, pure, raise, lift, raise_if, ◌>>=◌, ◌>>◌,
}
use tv_safety_cleaner.Observer.Devices.{Device, parse_devices}

-- `subprocess.CompletedProcess`, with `returncode == 0`.
pub record Finished : Type 0 where
  pub succeeded : Bool
  pub stdout : String
  pub stderr : String

abbrev pub Runner : Type 0 → Type 0
Runner W = List String → Exec W (Option Finished)

-- [A-Za-z0-9._:/-]
abbrev is_safe_code : ℕ → Bool
is_safe_code c = is_word c || c == b'.' || c == b':' || c == b'/' || c == b'-'

abbrev pub is_safe : String → Bool
is_safe value = not (is_empty value) && all is_safe_code (codes value)

-- `_safe`
abbrev safe : String → String → Result String
safe value label = if is_safe value then ok value else err (adb_error ("invalid " <> label))

-- The bytes of a code point in UTF-8.
abbrev utf8_length : ℕ → ℕ
utf8_length c = if ltb c 128 then 1 else if ltb c 2048 then 2 else if ltb c 65536 then 3 else 4

abbrev encoded_length : List ℕ → ℕ
encoded_length [] = 0
encoded_length (c ∷ s) = utf8_length c + encoded_length s

abbrev max_output_bytes : ℕ
max_output_bytes = 2000000

pub record Client : Type 0 where
  pub executable : String
  pub serial : Option String

-- `ReadOnlyAdb(executable, serial)`
unfoldable pub new_client : String → String → Result Client
new_client executable serial =
    if is_empty serial
    then ok (record { executable = executable; serial = none })
    else chain (safe serial "serial")
        λ safe_serial. ok (record { executable = executable; serial = some safe_serial })

abbrev pub command : Client → List String → List String
command client args = elim client.serial [
  | none ↦ client.executable ∷ args
  | some serial ↦ client.executable ∷ "-s" ∷ serial ∷ args
]

module _ {W : Type 0} where
  abbrev pub conclude_read : Option Finished → Exec W String
  conclude_read none = raise (adb_error "ADB read timed out")
  conclude_read (some r) =
      if not r.succeeded
      then raise (adb_error ("ADB read failed: " <> prefix_of 300 (strip r.stderr)))
      else if ltb max_output_bytes (encoded_length (codes r.stdout))
      then raise (adb_error "ADB output exceeded safety limit")
      else pure r.stdout

module _ {W : Type 0} (runner : Runner W) (client : Client) where
  -- `_read`
  unfoldable pub read : List String → Exec W String
  unfolding strip prefix_of
  read args = runner (command client args) >>= conclude_read

  unfoldable pub devices : Exec W (List Device)
  unfolding read
  devices = do output ← read ("devices" ∷ "-l" ∷ []); pure (parse_devices output)

  unfoldable pub properties : Exec W String
  unfolding read
  properties = read ("shell" ∷ "getprop" ∷ [])

  abbrev pub filtered : List String → Exec W String
  filtered flag = read ("shell" ∷ "pm" ∷ "list" ∷ "packages" ∷ flag)

  unfoldable pub packages : Bool → Bool → Bool → Exec W String
  unfolding read
  packages false false false = filtered []
  packages true false false = filtered ("-d" ∷ [])
  packages false true false = filtered ("-3" ∷ [])
  packages false false true = filtered ("-s" ∷ [])
  packages _ _ _ = raise (adb_error "select only one package filter")

  unfoldable pub activity_summary : Exec W String
  unfolding read
  activity_summary = read ("shell" ∷ "dumpsys" ∷ "activity" ∷ "activities" ∷ [])

  unfoldable pub package_summary : Exec W String
  unfolding read
  package_summary = read ("shell" ∷ "dumpsys" ∷ "package" ∷ [])

  unfoldable pub memory_summary : Exec W String
  unfolding read
  memory_summary = read ("shell" ∷ "cat" ∷ "/proc/meminfo" ∷ [])

  unfoldable pub storage_summary : Exec W String
  unfolding read
  storage_summary = read ("shell" ∷ "df" ∷ "-k" ∷ [])

  unfoldable pub process_summary : Exec W String
  unfolding read
  process_summary = read ("shell" ∷ "ps" ∷ "-A" ∷ [])

  unfoldable pub network_summary : Exec W String
  unfolding read
  network_summary = read ("shell" ∷ "ip" ∷ "addr" ∷ "show" ∷ [])

  unfoldable pub cpu_summary : Exec W String
  unfolding read
  cpu_summary = read ("shell" ∷ "dumpsys" ∷ "cpuinfo" ∷ [])

  unfoldable pub setting : String → String → Exec W String
  unfolding read
  setting namespace key = do
    raise_if (not (contains namespace ("global" ∷ "secure" ∷ "system" ∷ [])))
        (adb_error "invalid settings namespace")
    safe_key ← lift (safe key "settings key")
    read ("shell" ∷ "settings" ∷ "get" ∷ namespace ∷ safe_key ∷ [])
