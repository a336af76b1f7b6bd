-- ===== src/Tests/Observer.antt =====
-- A session with one scenario and two samples, and the evidence of two televisions.
use tv_safety_cleaner.Prelude.{
  ◌+◌, ◌≤◌, ◌<◌, String, ◌≡◌, ◌≢◌, ◌↔◌, refl, ap, none, some, List, [], ◌∷◌, map, is_space, length,
  arith, strip, lower, has_substring, starts_with, String_discrete, ℕ_discrete, split_lines,
}
use tv_safety_cleaner.Prelude.Dict.{lookup}
use tv_safety_cleaner.Exec.{ok, err, adb_error}
use tv_safety_cleaner.Observer.Devices.{parse_devices, parse_lines, words, words_from, is_skipped}
use tv_safety_cleaner.Observer.Observation.{Store, Session, active_session, status, start, stop}
use tv_safety_cleaner.Observer.Observation.Sessions.{
  Call, start_call, stop_call, scenario_start_call, calls, calls-IsValid, IsValid, open_scenarios,
  stop_lem,
}
use tv_safety_cleaner.Observer.Observation.Polling.{ObservationReader, Polling, run, foreground}
use tv_safety_cleaner.Observer.Observation.Samples.{run-≤, run-length, IsAdbReader}
use tv_safety_cleaner.Observer.Platform.{
  Platform, fire_os, PlatformEvidence, detect_platform, fire_signals, vega_signals, google_signals,
  android_signals, candidate, decide, present,
}
use tv_safety_cleaner.Observer.Platform.Detecting.{votes, detect_platform_iff}

abbrev empty_store : Store
empty_store = record {
  sessions = [];
  scenarios = [];
  samples = [];
  next_session = 1;
  next_scenario = 1;
  poll_interval_seconds = 30;
}

empty_store-IsValid : IsValid empty_store
empty_store-IsValid = record { one_session = omega arith; one_scenario = omega arith; owned = tt }

abbrev an_evening : List (String × Call)
an_evening =
    ("t1", start_call "evening")
    ∷ ("t2", start_call "again")
    ∷ ("t3", scenario_start_call "idle")
    ∷ ("t4", stop_call)
    ∷ []

calls-IsValid_example : IsValid (calls an_evening empty_store)
calls-IsValid_example = calls-IsValid an_evening empty_store empty_store-IsValid

abbrev a_session : Session
a_session = record {
  id = 1;
  name = "evening";
  started_at = "t1";
  stopped_at = none;
  poll_interval = 30;
}

abbrev in_session : Store
in_session = record empty_store { sessions = a_session ∷ []; next_session = 2 }

in_session-IsValid : IsValid in_session
in_session-IsValid = record { one_session = omega arith; one_scenario = omega arith; owned = tt }

stop_lem_example :
    (status (stop "t2" in_session).1 ≡ none)
    × (open_scenarios (stop "t2" in_session).1.scenarios ≡ 0)
    × ((start "t3" "night" (stop "t2" in_session).1).0 ≡ ok 2)
stop_lem_example =
    stop_lem "t2" "t3" "night" in_session in_session-IsValid (unfold stop active_session in refl)
      (unfold strip ℕ_discrete in refl) (omega arith)

-- A television whose memory cannot be read.
abbrev a_reader : ObservationReader (Unit {0})
a_reader = record {
  activity_summary =
      λ w. (ok "  topResumedActivity=ActivityRecord{1 u0 org.example.tv/.Main t1}", w);
  memory_summary = λ w. (err (adb_error "offline"), w);
  cpu_summary = λ w. (ok "", w);
  process_summary = λ w. (ok "", w);
  storage_summary = λ w. (ok "", w);
}

foreground_is_read :
    foreground "  topResumedActivity=ActivityRecord{1 u0 org.example.tv/.Main t1}"
    ≡ some "org.example.tv"
unfolding foreground starts_with ℕ_discrete
foreground_is_read = refl

a_reader-IsAdbReader : IsAdbReader a_reader
a_reader-IsAdbReader = record {
  activity = λ w e h. cc;
  memory = λ w e h. ("offline", ground arith);
  cpu = λ w e h. cc;
  process = λ w e h. cc;
  storage = λ w e h. cc;
}

abbrev a_polling : Polling (Unit {0})
a_polling = record { outside = tt; store = in_session }

abbrev polled : Polling (Unit {0})
polled = (run (λ _ s. (ok tt, s)) a_reader "t5" 2 0 a_polling).1

run-length_example :
    ((run (λ _ s. (ok tt, s)) a_reader "t5" 2 0 a_polling).0 ≡ ok 2)
    × (length polled.store.samples ≡ 2)
run-length_example =
    run-length a_reader a_reader-IsAdbReader (λ _ s. (ok tt, s)) (λ _ _. (refl, refl)) "t5" 2 0
      a_polling a_session (unfold active_session in refl)

run-≤_example : 2 ≤ 0 + 2
run-≤_example =
    run-≤ a_reader (λ _ s. (ok tt, s)) "t5" 2 0 a_polling {n = 2} {t = polled}
      (ap (λ r. (r, polled)) run-length_example.0)

abbrev fire_evidence : PlatformEvidence
fire_evidence = record {
  properties = ("ro.product.manufacturer", "Amazon") ∷ [];
  packages = "com.amazon.tv.launcher" ∷ [];
  launcher = "";
}

fire_is_detected : (detect_platform fire_evidence).platform ≡ fire_os
unfolding detect_platform fire_signals vega_signals google_signals android_signals candidate decide
    present lookup lower has_substring starts_with String_discrete ℕ_discrete
fire_is_detected = refl

detect_platform_iff_example : ((detect_platform fire_evidence).platform ≡ fire_os) ↔ (
    (2 ≤ votes fire_evidence fire_os) × ((q : Platform) → q ≢ fire_os → votes fire_evidence q < 2))
detect_platform_iff_example = detect_platform_iff fire_evidence fire_os (λ e. cc)

listing_is_read :
    map
      (λ d. d.serial)
      (parse_devices
        "List of devices attached\n192.0.2.1:5555 device product:x\n192.0.2.2:5555 unauthorized\n")
    ≡ "192.0.2.1:5555" ∷ "192.0.2.2:5555" ∷ []
unfolding parse_devices parse_lines words words_from is_skipped split_lines starts_with strip
    is_space String_discrete ℕ_discrete
listing_is_read = refl
