-- ===== src/Tests/Wire.antt =====
-- A request and its thread on a television that is reached through adb, call by call.
use tv_safety_cleaner.Prelude.{
  String, ◌≡◌, refl, true, false, some, List, [], ◌∷◌, map, if◌then◌else◌, contains, string_eq,
  String_discrete, ℕ_discrete, strip, lower, has_substring, split_lines,
}
use tv_safety_cleaner.Exec.{Exec, ok, ◌>>=◌}
use tv_safety_cleaner.Controller.Names.{
  parse_package_input, candidate_of, is_package_id, matches_from,
}
use tv_safety_cleaner.Controller.Planner.{is_never_touch}
use tv_safety_cleaner.Controller.Jobs.{Manager, Disk, Available, Host}
use tv_safety_cleaner.Controller.Jobs.Threads.{run_thread}
use tv_safety_cleaner.Controller.Jobs.Run.{}
use tv_safety_cleaner.Controller.AdbClient.{Shell, version_code_in, search_field, set_enabled}
use tv_safety_cleaner.Controller.AdbClient.Wire.{
  reading, Wire, wired, SafeWire, enable_argv, list_argv,
}
use tv_safety_cleaner.Controller.Service.{Request, serve, requested, ran, stays, goes_on}
use tv_safety_cleaner.Controller.Service.Commands.{service, Steps-SafeWire}
use tv_safety_cleaner.Tests.Data.{a_package, a_task, plain_lib, one_pending, disabling_thread}

-- It shows one package, third-party and enabled.
abbrev reply : List String → String
reply argv =
    if contains "get-state" argv
    then "device"
    else if contains "dumpsys" argv
    then "versionCode=2 versionName=2.0"
    else if contains "-d" argv
    then ""
    else "package:org.example.app"

abbrev tv_shell : Shell (Unit {0})
tv_shell = record {
  call = λ argv s. (ok (some (record { succeeded = true; stdout = reply argv; stderr = "" })), s);
  reach = λ _ s. (ok true, s);
}

abbrev a_download : String → String → String → Exec (Disk (Unit {0})) String
a_download _ _ _ disk = (ok "a-2.apk", disk)

abbrev an_update : String → String → String → Exec (Disk (Unit {0})) Available
an_update _ _ _ disk = (ok (record { version = 2; source = "unknown"; download_url = "" }), disk)

abbrev wired_host : Host (Wire (Unit {0}))
wired_host = service tv_shell plain_lib a_download an_update (λ _. "t")

-- The service with one thread that has been started.
abbrev begun : Manager (Wire (Unit {0}))
begun = record {
  tv = record { outside = tt; purpose = reading; sent = [] };
  journal = one_pending;
  tasks = [];
  apks = [];
  profiles = [];
  settings = record {
    downloader_endpoint = "https://dl.example";
    adb_host = "192.0.2.1:5555";
    sideload_enabled = true;
  };
  running = a_task ∷ [];
  threads = disabling_thread ∷ [];
  time = 100;
}

abbrev disabled : Manager (Wire (Unit {0}))
disabled = run_thread wired_host disabling_thread (record begun { threads = [] })

Steps-SafeWire_example :
    SafeWire plain_lib (serve wired_host (Request.uninstall a_task a_package) disabled).tv
Steps-SafeWire_example =
    Steps-SafeWire tv_shell plain_lib a_download an_update (λ _. "t") (λ p h. (refl, refl))
      (goes_on (goes_on (stays begun) (ran [] [] disabling_thread begun refl))
        (requested (Request.uninstall a_task a_package) disabled))
      tt

-- The calls of that thread's client, newest first.
commands :
    map
      (λ e. e.argv)
      (set_enabled
        (wired tv_shell)
        plain_lib
        "tv"
        a_package
        false
        (record { outside = tt; purpose = reading; sent = [] })).1.sent
    ≡ enable_argv "tv" false a_package
      ∷ list_argv "tv" "-d" a_package
      ∷ list_argv "tv" "-3" a_package
      ∷ ("-s" ∷ "tv" ∷ "shell" ∷ "dumpsys" ∷ "package" ∷ a_package ∷ [])
      ∷ []
unfolding set_enabled wired ◌>>=◌ parse_package_input candidate_of is_package_id matches_from strip
    is_never_touch lower has_substring version_code_in search_field split_lines ℕ_discrete
    String_discrete
commands = refl
