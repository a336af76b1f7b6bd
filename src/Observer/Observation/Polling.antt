-- ===== src/Observer/Observation/Polling.antt =====
-- `ObservationPoller` of tv_observer/observation.py. The reader's answers are parameters; other
-- processes may change the store while the poller sleeps.
use Prim.Native.Char.{code}
use tv_safety_cleaner.Prelude.{
  ℕ, ◌<>◌, zero, suc, String, Bool, true, false, Option, none, some, [], not, ◌&&◌, ◌||◌, ◌==◌,
  nat_eq, if◌then◌else◌, length, codes, is_word, is_empty, starts_with, split_lines,
}
use tv_safety_cleaner.Exec.{Exec, Error, ok, adb_error, pure, raise, catch, ◌>>=◌, ◌>>◌}
use tv_safety_cleaner.Observer.Observation.{Store, Sample, add_sample, status}

pub record ObservationReader (W : Type 0) : Type 0 where
  pub activity_summary : Exec W String
  pub memory_summary : Exec W String
  pub cpu_summary : Exec W String
  pub process_summary : Exec W String
  pub storage_summary : Exec W String

-- What a poller works on: the world that the reader reads, and the store.
pub record Polling (W : Type 0) : Type 0 where
  pub outside : W
  pub store : Store

-- [A-Za-z0-9._]
abbrev is_package_code : ℕ → Bool
is_package_code c = is_word c || c == b'.'

-- ([A-Za-z0-9._]+)/ at the start of the text, after `taken`.
unfoldable package_at : String → String → Option String
package_at taken String.[] = none
package_at taken (String.◌∷◌ c s) =
    let rest = package_at (taken <> String.◌∷◌ c "") s in
    if is_package_code (code c)
    then rest
    else if code c == b'/' && not (is_empty taken)
    then some taken
    else none

abbrev or_else : {A : Type 0} → Option A → Option A → Option A
or_else none o = o
or_else (some a) _ = some a

-- `.*? (…)/` from here: the first space on this line that a package and a slash follow.
unfoldable component_in : String → Option String
unfolding package_at
component_in String.[] = none
component_in (String.◌∷◌ c s) =
    let rest = component_in s in
    if code c == 10 then none else if code c == b' ' then or_else (package_at "" s) rest else rest

abbrev drop_codes : ℕ → String → String
drop_codes zero s = s
drop_codes (suc n) String.[] = ""
drop_codes (suc n) (String.◌∷◌ c s) = drop_codes n s

abbrev after_marker : String → String → Option String
after_marker marker s =
    if starts_with (codes s) (codes marker)
    then component_in (drop_codes (length (codes marker)) s)
    else none

-- `FOREGROUND_PACKAGE.search`
unfoldable pub foreground : String → Option String
unfolding component_in starts_with
foreground String.[] = none
foreground (String.◌∷◌ c s) =
    let rest = foreground s in
    or_else (after_marker "mResumedActivity" (String.◌∷◌ c s))
      (or_else (after_marker "topResumedActivity" (String.◌∷◌ c s)) rest)

abbrev or_unknown : Option String → String
or_unknown none = "unknown"
or_unknown (some p) = p

abbrev pub unavailable : String → Sample
unavailable reason = record {
  adb_available = false;
  foreground_package = "unknown";
  ram_summary = reason;
  cpu_summary = "unavailable";
  processes = [];
  storage_summary = "unavailable";
  recorded_at = "";
}

module _ {W A : Type 0} where
  unfoldable pub on_outside : Exec W A → Exec (Polling W) A
  on_outside m s = ((m s.outside).0, record s { outside = (m s.outside).1 })

  unfoldable pub on_store : Exec Store A → Exec (Polling W) A
  on_store m s = ((m s.store).0, record s { store = (m s.store).1 })

  -- `except AdbError as exc`
  abbrev pub on_adb_error : (String → A) → Error → Exec W A
  on_adb_error f (adb_error reason) = pure (f reason)
  on_adb_error f e = raise e

-- `self.store.status() is not None`
abbrev pub is_running : {W : Type 0} → Polling W → Bool
is_running s = elim (status s.store) [ none ↦ false | some _ ↦ true ]

module _ {W : Type 0} (reader : ObservationReader W) where
  unfoldable pub read_sample : Exec W Sample
  read_sample = do
    activity ← reader.activity_summary
    ram ← reader.memory_summary
    cpu ← reader.cpu_summary
    processes ← reader.process_summary
    storage ← reader.storage_summary
    pure (record {
      adb_available = true;
      foreground_package = or_unknown (foreground activity);
      ram_summary = ram;
      cpu_summary = cpu;
      processes = split_lines processes;
      storage_summary = storage;
      recorded_at = "";
    })

  unfoldable pub poll_once : String → Exec (Polling W) Sample
  unfolding read_sample
  poll_once now = do
    sample ← on_outside (catch read_sample (on_adb_error unavailable))
    on_store (add_sample now sample)
    pure sample

module _ {W : Type 0} (sleeper : ℕ → Exec (Polling W) (Unit {0})) where
  -- `if self.store.status() is not None and count < max_samples: sleeper(…)`
  unfoldable pub pause : ℕ → Exec (Polling W) (Unit {0})
  pause zero s = (ok tt, s)
  pause (suc remaining) s =
      if is_running s then sleeper s.store.poll_interval_seconds s else (ok tt, s)

  -- `run(max_samples=…)`: `remaining` samples are still allowed. The method without a bound runs until
  -- the session is stopped.
  unfoldable pub run : ObservationReader W → String → ℕ → ℕ → Exec (Polling W) ℕ
  unfolding poll_once pause
  run reader now zero count s = (ok count, s)
  run reader now (suc remaining) count s =
      if not (is_running s)
      then (ok count, s)
      else (poll_once reader now >>= λ _.
            pause remaining >>= λ _. run reader now remaining (suc count))
          s
