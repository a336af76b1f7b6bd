-- ===== src/Observer/ReadOnlyAdb/Reads.antt =====
-- The calls that the read-only client makes: each is one of the fixed reads, on a safe serial number.
use tv_safety_cleaner.Prelude.{
  String, ◌≡◌, ◌⊎◌, inl, inr, refl, Bool, true, false, Option, none, some, List, [], ◌∷◌, string_eq,
  arith,
}
use tv_safety_cleaner.Exec.{ok}
use tv_safety_cleaner.Exec.Keeps.{
  Keeps, keeps_rules, Keeps-bind, Keeps-lift_bind, Keeps-check, Keeps-raise, Keeps-pure,
}
use tv_safety_cleaner.Observer.ReadOnlyAdb.{
  Runner, Client, Finished, is_safe, command, new_client, conclude_read, read, devices, properties,
  packages, activity_summary, package_summary, memory_summary, storage_summary, process_summary,
  network_summary, setting, filtered,
}

abbrev pub IsFilter : List String → Type 0
IsFilter flag = (flag ≡ []) ⊎ (flag ≡ "-d" ∷ []) ⊎ (flag ≡ "-3" ∷ []) ⊎ (flag ≡ "-s" ∷ [])

abbrev pub IsNamespace : String → Type 0
IsNamespace n = (n ≡ "global") ⊎ (n ≡ "secure") ⊎ (n ≡ "system")

-- What follows the program and the serial number.
pub data Reading : List String → Type 0 where
  lists_devices : Reading ("devices" ∷ "-l" ∷ [])
  reads_properties : Reading ("shell" ∷ "getprop" ∷ [])
  lists_packages :
      (flag : List String) → IsFilter flag → Reading ("shell" ∷ "pm" ∷ "list" ∷ "packages" ∷ flag)
  dumps_activities : Reading ("shell" ∷ "dumpsys" ∷ "activity" ∷ "activities" ∷ [])
  dumps_packages : Reading ("shell" ∷ "dumpsys" ∷ "package" ∷ [])
  reads_memory : Reading ("shell" ∷ "cat" ∷ "/proc/meminfo" ∷ [])
  reads_storage : Reading ("shell" ∷ "df" ∷ "-k" ∷ [])
  lists_processes : Reading ("shell" ∷ "ps" ∷ "-A" ∷ [])
  reads_network : Reading ("shell" ∷ "ip" ∷ "addr" ∷ "show" ∷ [])
  gets_setting :
      (namespace key : String)
      → IsNamespace namespace
      → is_safe key ≡ true
      → Reading ("shell" ∷ "settings" ∷ "get" ∷ namespace ∷ key ∷ [])

-- A whole command line.
pub data ReadsOnly (executable : String) : List String → Type 0 where
  discovers : {args : List String} → Reading args → ReadsOnly executable (executable ∷ args)
  selects :
      {args : List String} (serial : String)
      → is_safe serial ≡ true
      → Reading args
      → ReadsOnly executable (executable ∷ "-s" ∷ serial ∷ args)

-- A world that remembers every command line, newest first.
pub record Recorded (W : Type 0) : Type 0 where
  pub outside : W
  pub commands : List (List String)

unfoldable pub recorded : {W : Type 0} → Runner W → Runner (Recorded W)
recorded runner argv s = (
  (runner argv s.outside).0,
  record { outside = (runner argv s.outside).1; commands = argv ∷ s.commands },
)

abbrev pub AllRead : String → List (List String) → Type 0
AllRead executable [] = Unit
AllRead executable (argv ∷ commands) = ReadsOnly executable argv × AllRead executable commands

pub record ReadsSoFar {W : Type 0} (executable : String) (s : Recorded W) : Type 0 where
  pub holds : AllRead executable s.commands

-- A client as `new_client` makes it.
abbrev pub IsClientOf : String → Client → Type 0
IsClientOf executable client =
    (client.executable ≡ executable)
    × ((serial : String) → client.serial ≡ some serial → is_safe serial ≡ true)

pub new_client-IsClientOf :
    (executable serial : String) (client : Client)
    → new_client executable serial ≡ ok client
    → IsClientOf executable client
unfolding new_client
new_client-IsClientOf executable serial client h = (ground arith, λ s e. ground arith)

command-ReadsOnly :
    (executable : String) (client : Client) (args : List String)
    → IsClientOf executable client
    → Reading args
    → ReadsOnly executable (command client args)
command-ReadsOnly executable client args (same, safe) r = by_serial client.serial refl
  where
    by_serial :
        (serial : Option String)
        → client.serial ≡ serial
        → ReadsOnly executable (command client args)
    by_serial none e = rw (e, same) (discovers r)
    by_serial (some serial) e = rw (e, same) (selects serial (safe serial e) r)

module _ {W : Type 0} (runner : Runner W) (executable : String) (client : Client)
    (known : IsClientOf executable client) where
  conclude_read-Keeps :
      (o : Option Finished) → Keeps (ReadsSoFar {W = W} executable) (conclude_read o)
  conclude_read-Keeps none = search keeps_rules
  conclude_read-Keeps (some r) = search keeps_rules

  read-Keeps :
      (args : List String)
      → Reading args
      → Keeps (ReadsSoFar {W = W} executable) (read (recorded runner) client args)
  unfolding read recorded
  read-Keeps args r =
      Keeps-bind _ _
        (record {
          at =
              λ s h. record { holds = (command-ReadsOnly executable client args known r, h.holds) };
        })
        conclude_read-Keeps

  pub devices-Keeps : Keeps (ReadsSoFar {W = W} executable) (devices (recorded runner) client)
  unfolding devices
  devices-Keeps = Keeps-bind _ _ (read-Keeps _ lists_devices) λ output. Keeps-pure _

  pub properties-Keeps : Keeps (ReadsSoFar {W = W} executable) (properties (recorded runner) client)
  unfolding properties
  properties-Keeps = read-Keeps _ reads_properties

  filtered-Keeps :
      (flag : List String)
      → IsFilter flag
      → Keeps (ReadsSoFar {W = W} executable) (filtered (recorded runner) client flag)
  filtered-Keeps flag f = read-Keeps _ (lists_packages flag f)

  pub packages-Keeps :
      (disabled_only user_only system_only : Bool)
      → Keeps
          (ReadsSoFar {W = W} executable)
          (packages (recorded runner) client disabled_only user_only system_only)
  unfolding packages
  packages-Keeps false false false = filtered-Keeps [] (inl refl)
  packages-Keeps true false false = filtered-Keeps _ (inr (inl refl))
  packages-Keeps false true false = filtered-Keeps _ (inr (inr (inl refl)))
  packages-Keeps false false true = filtered-Keeps _ (inr (inr (inr refl)))
  packages-Keeps true true false = Keeps-raise _
  packages-Keeps true false true = Keeps-raise _
  packages-Keeps false true true = Keeps-raise _
  packages-Keeps true true true = Keeps-raise _

  pub activity_summary-Keeps :
      Keeps (ReadsSoFar {W = W} executable) (activity_summary (recorded runner) client)
  unfolding activity_summary
  activity_summary-Keeps = read-Keeps _ dumps_activities

  pub package_summary-Keeps :
      Keeps (ReadsSoFar {W = W} executable) (package_summary (recorded runner) client)
  unfolding package_summary
  package_summary-Keeps = read-Keeps _ dumps_packages

  pub memory_summary-Keeps :
      Keeps (ReadsSoFar {W = W} executable) (memory_summary (recorded runner) client)
  unfolding memory_summary
  memory_summary-Keeps = read-Keeps _ reads_memory

  pub storage_summary-Keeps :
      Keeps (ReadsSoFar {W = W} executable) (storage_summary (recorded runner) client)
  unfolding storage_summary
  storage_summary-Keeps = read-Keeps _ reads_storage

  pub process_summary-Keeps :
      Keeps (ReadsSoFar {W = W} executable) (process_summary (recorded runner) client)
  unfolding process_summary
  process_summary-Keeps = read-Keeps _ lists_processes

  pub network_summary-Keeps :
      Keeps (ReadsSoFar {W = W} executable) (network_summary (recorded runner) client)
  unfolding network_summary
  network_summary-Keeps = read-Keeps _ reads_network

  pub setting-Keeps :
      (namespace key : String)
      → Keeps (ReadsSoFar {W = W} executable) (setting (recorded runner) client namespace key)
  unfolding setting
  setting-Keeps namespace key = Keeps-check _ _ _ λ named. Keeps-lift_bind _ _ λ safe_key checked.
      read-Keeps _ (gets_setting namespace safe_key (ground arith) (ground arith))
