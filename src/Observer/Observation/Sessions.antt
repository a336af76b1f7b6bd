-- ===== src/Observer/Observation/Sessions.antt =====
-- What the store's methods keep: at most one session is open, at most one scenario, and an open
-- scenario belongs to the open session.
use tv_safety_cleaner.Prelude.{
  ℕ, suc, ◌≤◌, String, ◌≡◌, refl, true, false, Option, none, some, List, [], ◌∷◌, map, nat_eq,
  string_eq, if◌then◌else◌, any, length, codes, strip, is_empty, All, arith, Option-cases, inl, inr,
}
use tv_safety_cleaner.Exec.{ok}
use tv_safety_cleaner.Observer.Observation.{
  Store, Session, Scenario, Sample, start, stop, scenario_start, scenario_stop, add_sample, is_open,
  active_session, closed_scenario, closed_session, status, new_session,
}

pub data Call : Type 0 where
  start_call : String → Call
  stop_call : Call
  scenario_start_call : String → Call
  scenario_stop_call : Call
  add_sample_call : Sample → Call

unfoldable pub call : String → Call → Store → Store
unfolding start stop scenario_start scenario_stop add_sample
call now (start_call name) s = (start now name s).1
call now stop_call s = (stop now s).1
call now (scenario_start_call label) s = (scenario_start now label s).1
call now scenario_stop_call s = (scenario_stop now s).1
call now (add_sample_call sample) s = (add_sample now sample s).1

-- Calls with the times at which they are made.
unfoldable pub calls : List (String × Call) → Store → Store
unfolding call
calls [] s = s
calls ((now, c) ∷ cs) s = calls cs (call now c s)

abbrev pub open_sessions : List Session → ℕ
open_sessions [] = 0
open_sessions (row ∷ rows) =
    let rest = open_sessions rows in if is_open row.stopped_at then suc rest else rest

abbrev pub open_scenarios : List Scenario → ℕ
open_scenarios [] = 0
open_scenarios (row ∷ rows) =
    let rest = open_scenarios rows in if is_open row.stopped_at then suc rest else rest

-- An open scenario is one of the session `active`.
abbrev pub BelongsTo : Option Session → Scenario → Type 0
BelongsTo none row = is_open row.stopped_at ≡ false
BelongsTo (some session) row = is_open row.stopped_at ≡ true → row.session_id ≡ session.id

pub record IsValid (s : Store) : Type 0 where
  pub one_session : open_sessions s.sessions ≤ 1
  pub one_scenario : open_scenarios s.scenarios ≤ 1
  pub owned : All (BelongsTo (active_session s.sessions)) s.scenarios

open_sessions-none : (rows : List Session) → open_sessions rows ≡ 0 → active_session rows ≡ none
unfolding active_session
open_sessions-none [] h = refl
open_sessions-none (row ∷ rows) h = ground (arith, open_sessions-none rows)

none-open_sessions : (rows : List Session) → active_session rows ≡ none → open_sessions rows ≡ 0
unfolding active_session
none-open_sessions [] h = refl
none-open_sessions (row ∷ rows) h = ground (arith, none-open_sessions rows)

closed_session-none :
    (now : String) (i : ℕ) (rows : List Session)
    → open_sessions rows ≡ 0
    → open_sessions (map (closed_session now i) rows) ≡ 0
closed_session-none now i [] h = refl
closed_session-none now i (row ∷ rows) h = ground (arith, closed_session-none now i rows)

-- Closing the open session leaves none open.
closed_session-open_sessions :
    (now : String) (rows : List Session) (session : Session)
    → open_sessions rows ≤ 1
    → active_session rows ≡ some session
    → open_sessions (map (closed_session now session.id) rows) ≡ 0
unfolding active_session
closed_session-open_sessions now [] session le h = cc
closed_session-open_sessions now (row ∷ rows) session le h =
    ground (
      arith,
      closed_session-none now session.id rows,
      closed_session-open_sessions now rows session,
    )

closed_scenario-open_scenarios :
    (now : String) (rows : List Scenario) → open_scenarios (map (closed_scenario now) rows) ≡ 0
closed_scenario-open_scenarios now [] = refl
closed_scenario-open_scenarios now (row ∷ rows) =
    ground (arith, closed_scenario-open_scenarios now rows)

closed_scenario-BelongsTo :
    (now : String) (active : Option Session) (rows : List Scenario)
    → All (BelongsTo active) (map (closed_scenario now) rows)
closed_scenario-BelongsTo now active [] = tt
closed_scenario-BelongsTo now none (row ∷ rows) =
    ground (arith, closed_scenario-BelongsTo now none rows)
closed_scenario-BelongsTo now (some session) (row ∷ rows) =
    ground (arith, closed_scenario-BelongsTo now (some session) rows)

no_open_scenario :
    (rows : List Scenario)
    → any (λ row. is_open row.stopped_at) rows ≡ false
    → open_scenarios rows ≡ 0
no_open_scenario [] h = refl
no_open_scenario (row ∷ rows) h = ground (arith, no_open_scenario rows)

closed-BelongsTo :
    (session : Session) (rows : List Scenario)
    → All (BelongsTo none) rows
    → All (BelongsTo (some session)) rows
closed-BelongsTo session [] h = tt
closed-BelongsTo session (row ∷ rows) h = ground (arith, closed-BelongsTo session rows h.1)

start-IsValid : (now name : String) (s : Store) → IsValid s → IsValid (start now name s).1
unfolding start active_session
start-IsValid now name s h = elim (Option-cases (active_session s.sessions)) [
  | inl e ↦
      let quiet = none-open_sessions s.sessions e in
      let owned : All (BelongsTo none) s.scenarios = rw e at h.owned in
      let kept =
        closed-BelongsTo (new_session s.next_session name now s.poll_interval_seconds) s.scenarios
          owned in
      record { one_session = ground arith; one_scenario = ground arith; owned = ground arith }
  | inr (row, e) ↦ record {
    one_session = ground arith;
    one_scenario = ground arith;
    owned = ground arith;
  }
]

stop-IsValid : (now : String) (s : Store) → IsValid s → IsValid (stop now s).1
unfolding stop
stop-IsValid now s h = elim (Option-cases (active_session s.sessions)) [
  | inl e ↦ rw (e, stop) h
  | inr (row, e) ↦
      let closed = closed_session-open_sessions now s.sessions row h.one_session e in
      let quiet = closed_scenario-open_scenarios now s.scenarios in
      rw (e, stop)
        (record {
          one_session = ground arith;
          one_scenario = ground arith;
          owned = closed_scenario-BelongsTo now _ s.scenarios;
        })
]

scenario_start-IsValid :
    (now label : String) (s : Store) → IsValid s → IsValid (scenario_start now label s).1
unfolding scenario_start
scenario_start-IsValid now label s h =
    let quiet = no_open_scenario s.scenarios in
    record { one_session = ground arith; one_scenario = ground arith; owned = ground arith }

scenario_stop-IsValid : (now : String) (s : Store) → IsValid s → IsValid (scenario_stop now s).1
unfolding scenario_stop
scenario_stop-IsValid now s h =
    let quiet = closed_scenario-open_scenarios now s.scenarios in
    let owned = closed_scenario-BelongsTo now (active_session s.sessions) s.scenarios in
    record { one_session = ground arith; one_scenario = ground arith; owned = ground arith }

add_sample-IsValid :
    (now : String) (sample : Sample) (s : Store) → IsValid s → IsValid (add_sample now sample s).1
unfolding add_sample
add_sample-IsValid now sample s h = record {
  one_session = ground arith;
  one_scenario = ground arith;
  owned = ground arith;
}

call-IsValid : (now : String) (c : Call) (s : Store) → IsValid s → IsValid (call now c s)
unfolding call
call-IsValid now (start_call name) s h = start-IsValid now name s h
call-IsValid now stop_call s h = stop-IsValid now s h
call-IsValid now (scenario_start_call label) s h = scenario_start-IsValid now label s h
call-IsValid now scenario_stop_call s h = scenario_stop-IsValid now s h
call-IsValid now (add_sample_call sample) s h = add_sample-IsValid now sample s h

-- From a store in which at most one session and one scenario are open, the scenario within the
-- session, every sequence of calls, refused ones included, leads to such a store.
pub calls-IsValid : (cs : List (String × Call)) (s : Store) → IsValid s → IsValid (calls cs s)
unfolding calls
calls-IsValid [] s h = h
calls-IsValid ((now, c) ∷ cs) s h = calls-IsValid cs (call now c s) (call-IsValid now c s h)

-- A session that is stopped leaves no session and no scenario open, and a session of any acceptable
-- name can be started at once.
pub stop_lem :
    (now later name : String) (s : Store)
    → IsValid s
    → (stop now s).0 ≡ ok tt
    → is_empty (strip name) ≡ false
    → length (codes name) ≤ 100
    → (status (stop now s).1 ≡ none)
      × (open_scenarios (stop now s).1.scenarios ≡ 0)
      × ((start later name (stop now s).1).0 ≡ ok s.next_session)
unfolding stop start status
stop_lem now later name s h done named short = elim (Option-cases (active_session s.sessions)) [
  | inl e ↦ ground arith
  | inr (row, e) ↦
      let closed = closed_session-open_sessions now s.sessions row h.one_session e in
      let quiet = closed_scenario-open_scenarios now s.scenarios in
      let none_left = open_sessions-none (map (closed_session now row.id) s.sessions) closed in
      ground arith
]
