-- ===== src/Observer/Observation.antt =====
-- tv_observer/observation.py: observation sessions, their scenarios and samples, and the poller. The
-- three tables are lists with the newest row first; each method is one SQLite transaction, with the
-- time that it reads as an argument. The samples' JSON payload is the sample itself.
pub mod Sessions
pub mod Polling
pub mod Samples
use mathlib.Core.List.{reverse}
use Prim.Native.Char.{code}
use tv_safety_cleaner.Prelude.{
  ℕ, zero, suc, String, Bool, true, false, Option, none, some, List, [], ◌∷◌, map, not, ◌&&◌, ◌||◌,
  ◌==◌, nat_eq, string_eq, if◌then◌else◌, contains, select, any, ltb, length, codes, strip,
  is_empty, is_word, starts_with,
}
use tv_safety_cleaner.Exec.{Exec, Result, ok, err, other}

abbrev pub scenario_labels : List String
scenario_labels = "idle" ∷ "streaming" ∷ "app-launch" ∷ "standby" ∷ "live-tv" ∷ "custom" ∷ []

pub record Sample : Type 0 where
  pub adb_available : Bool
  pub foreground_package : String
  pub ram_summary : String
  pub cpu_summary : String
  pub processes : List String
  pub storage_summary : String
  pub recorded_at : String

pub record Session : Type 0 where
  pub id : ℕ
  pub name : String
  pub started_at : String
  pub stopped_at : Option String
  pub poll_interval : ℕ

pub record Scenario : Type 0 where
  pub id : ℕ
  pub session_id : ℕ
  pub label : String
  pub started_at : String
  pub stopped_at : Option String

pub record SampleRow : Type 0 where
  pub session_id : ℕ
  pub recorded_at : String
  pub payload : Sample

pub record Store : Type 0 where
  pub sessions : List Session
  pub scenarios : List Scenario
  pub samples : List SampleRow
  pub next_session : ℕ
  pub next_scenario : ℕ
  pub poll_interval_seconds : ℕ

-- `ObservationError`
abbrev pub refused : {A : Type 0} → String → Store → Result A × Store
refused reason s = (err (other reason), s)

-- `ObservationStore(database, poll_interval_seconds)` on a new database.
unfoldable pub new_store : ℕ → Result Store
new_store seconds =
    if ltb seconds 5
    then err (other "poll interval must be at least 5 seconds")
    else ok (record {
      sessions = [];
      scenarios = [];
      samples = [];
      next_session = 1;
      next_scenario = 1;
      poll_interval_seconds = seconds;
    })

-- stopped_at IS NULL
abbrev pub is_open : Option String → Bool
is_open none = true
is_open (some _) = false

unfoldable pub active_session : List Session → Option Session
active_session [] = none
active_session (row ∷ rows) = if is_open row.stopped_at then some row else active_session rows

abbrev pub new_session : ℕ → String → String → ℕ → Session
new_session i name now interval = record {
  id = i;
  name = strip name;
  started_at = now;
  stopped_at = none;
  poll_interval = interval;
}

unfoldable pub start : String → String → Exec Store ℕ
start now name s =
    if is_empty (strip name) || ltb 100 (length (codes name))
    then refused "session name is required and limited to 100 characters" s
    else elim (active_session s.sessions) [
      | some _ ↦ refused "an observation session is already active" s
      | none ↦ (
        ok s.next_session,
        record s {
          sessions = new_session s.next_session name now s.poll_interval_seconds ∷ s.sessions;
          next_session = suc s.next_session;
        },
      )
    ]

unfoldable pub status : Store → Option Session
status s = active_session s.sessions

abbrev pub closed_scenario : String → Scenario → Scenario
closed_scenario now row =
    if is_open row.stopped_at then record row { stopped_at = some now } else row

abbrev pub closed_session : String → ℕ → Session → Session
closed_session now i row = if row.id == i then record row { stopped_at = some now } else row

unfoldable pub stop : String → Exec Store (Unit {0})
stop now s = elim (active_session s.sessions) [
  | none ↦ refused "no active observation session" s
  | some row ↦ (
    ok tt,
    record s {
      scenarios = map (closed_scenario now) s.scenarios;
      sessions = map (closed_session now row.id) s.sessions;
    },
  )
]

abbrev pub new_scenario : ℕ → ℕ → String → String → Scenario
new_scenario i session_id label now = record {
  id = i;
  session_id = session_id;
  label = label;
  started_at = now;
  stopped_at = none;
}

unfoldable pub scenario_start : String → String → Exec Store ℕ
scenario_start now label s =
    if not (contains label scenario_labels)
    then refused "unsupported scenario label" s
    else elim (active_session s.sessions) [
      | none ↦ refused "no active observation session" s
      | some session ↦
          if any (λ row. is_open row.stopped_at) s.scenarios
          then refused "a scenario is already active" s
          else (
            ok s.next_scenario,
            record s {
              scenarios = new_scenario s.next_scenario session.id label now ∷ s.scenarios;
              next_scenario = suc s.next_scenario;
            },
          )
    ]

unfoldable pub scenario_stop : String → Exec Store (Unit {0})
scenario_stop now s =
    if any (λ row. is_open row.stopped_at) s.scenarios
    then (ok tt, record s { scenarios = map (closed_scenario now) s.scenarios })
    else refused "no active scenario" s

-- `data["recorded_at"] = sample.recorded_at or _now()`
abbrev pub dated : String → Sample → Sample
dated now sample =
    if is_empty sample.recorded_at then record sample { recorded_at = now } else sample

abbrev pub sample_row : ℕ → Sample → SampleRow
sample_row i sample = record { session_id = i; recorded_at = sample.recorded_at; payload = sample }

unfoldable pub add_sample : String → Sample → Exec Store (Unit {0})
add_sample now sample s = elim (active_session s.sessions) [
  | none ↦ refused "no active observation session" s
  | some session ↦
      (ok tt, record s { samples = sample_row session.id (dated now sample) ∷ s.samples })
]

pub record Report : Type 0 where
  pub session : Session
  pub scenarios : List Scenario
  pub samples : List Sample

abbrev first_session : List Session → Option Session
first_session [] = none
first_session (row ∷ _) = some row

unfoldable pub find_session : ℕ → List Session → Option Session
find_session i [] = none
find_session i (row ∷ rows) = if row.id == i then some row else find_session i rows

abbrev chosen_session : Option ℕ → List Session → Option Session
chosen_session none rows = first_session rows
chosen_session (some i) rows = find_session i rows

-- The rows of the session in the order of their ids.
unfoldable pub report : Option ℕ → Store → Result Report
report session_id s = elim (chosen_session session_id s.sessions) [
  | none ↦ err (other "observation session not found")
  | some session ↦ ok (record {
    session = session;
    scenarios = reverse (select (λ row. row.session_id == session.id) s.scenarios);
    samples =
        map (λ row. row.payload) (reverse (select (λ row. row.session_id == session.id) s.samples));
  })
]
