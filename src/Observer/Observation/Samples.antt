-- ===== src/Observer/Observation/Samples.antt =====
-- How many samples the poller takes.
use tv_safety_cleaner.Prelude.{
  ℕ, String, Bool-cases, zero, suc, ◌+◌, ◌≤◌, ◌≡◌, refl, some, length, arith, inl, inr,
}
use tv_safety_cleaner.Exec.{
  Exec, Error, Result, ok, err, adb_error, pure, catch, handle, continue, bind-eq-ok, bind-eq,
  ◌>>=◌,
}
use tv_safety_cleaner.Observer.Observation.{Session, Sample, add_sample, status, active_session}
use tv_safety_cleaner.Observer.Observation.Polling.{
  ObservationReader, Polling, on_outside, on_store, read_sample, poll_once, pause, run, is_running,
  on_adb_error, unavailable,
}

module _ {W : Type 0} (reader : ObservationReader W)
    (sleeper : ℕ → Exec (Polling W) (Unit {0})) where
  -- No more samples are counted than are allowed, whatever the reader and the other processes do.
  pub run-≤ :
      (now : String) (remaining count : ℕ) (s : Polling W) {n : ℕ} {t : Polling W}
      → run sleeper reader now remaining count s ≡ (ok n, t)
      → n ≤ count + remaining
  unfolding run
  run-≤ now zero count s {n} {t} h = ground arith
  run-≤ now (suc remaining) count s {n} {t} h = elim (Bool-cases (is_running s)) [
    | inr e ↦ ground arith
    | inl e ↦
        let polled = poll_once reader now in
        let rest = run sleeper reader now remaining (suc count) in
        let going : (polled >>= λ _. pause sleeper remaining >>= λ _. rest) s ≡ (ok n, t) =
          ground arith in
        let (_, u, _, h1) =
          bind-eq-ok polled (λ _. pause sleeper remaining >>= λ _. rest) s going in
        let (_, v, _, h2) = bind-eq-ok (pause sleeper remaining) (λ _. rest) u h1 in
        let most = run-≤ now remaining (suc count) v h2 in omega arith
  ]

-- The only exception that the action raises is an `AdbError`.
abbrev pub OnlyAdb : {W A : Type 0} → Exec W A → Type 0
OnlyAdb {W = W} m =
    (w : W) (e : Error) → (m w).0 ≡ err e → (reason : String) × (e ≡ adb_error reason)

module _ {W A B : Type 0} where
  OnlyAdb-bind :
      (m : Exec W A) (f : A → Exec W B) → OnlyAdb m → ((a : A) → OnlyAdb (f a)) → OnlyAdb (m >>= f)
  unfolding ◌>>=◌
  OnlyAdb-bind m f hm hf w e h = after (m w) refl h
    where
      after :
          (r : Result A × W)
          → m w ≡ r
          → (continue f r).0 ≡ err e
          → (reason : String) × (e ≡ adb_error reason)
      after (ok a, u) same k = hf a u e k
      after (err d, u) same k = hm w e (ground arith)

module _ {W A : Type 0} where
  OnlyAdb-pure : (a : A) → OnlyAdb {W = W} (pure a)
  unfolding pure
  OnlyAdb-pure a w e h = cc

pub record IsAdbReader {W : Type 0} (reader : ObservationReader W) : Type 0 where
  pub activity : OnlyAdb reader.activity_summary
  pub memory : OnlyAdb reader.memory_summary
  pub cpu : OnlyAdb reader.cpu_summary
  pub process : OnlyAdb reader.process_summary
  pub storage : OnlyAdb reader.storage_summary

-- The sleep ends, and no other process changes the store in the meantime.
abbrev pub IsQuiet : {W : Type 0} → (ℕ → Exec (Polling W) (Unit {0})) → Type 0
IsQuiet {W = W} sleeper =
    (seconds : ℕ) (s : Polling W)
    → ((sleeper seconds s).0 ≡ ok tt) × ((sleeper seconds s).1.store ≡ s.store)

module _ {W : Type 0} (reader : ObservationReader W) (adb : IsAdbReader reader) where
  read_sample-OnlyAdb : OnlyAdb (read_sample reader)
  unfolding read_sample
  read_sample-OnlyAdb = OnlyAdb-bind _ _ adb.activity λ _. OnlyAdb-bind _ _ adb.memory λ _.
      OnlyAdb-bind _ _ adb.cpu
        λ _. OnlyAdb-bind _ _ adb.process λ _. OnlyAdb-bind _ _ adb.storage λ _. OnlyAdb-pure _

  caught_sample :
      (w : W)
      → (sample : Sample) × ((catch (read_sample reader) (on_adb_error unavailable) w).0
          ≡ ok sample)
  unfolding catch pure
  caught_sample w = seen (read_sample reader w) refl
    where
      seen :
          (r : Result Sample × W)
          → read_sample reader w ≡ r
          → (sample : Sample) × ((handle (on_adb_error unavailable) r).0 ≡ ok sample)
      seen (ok sample, u) same = (sample, refl)
      seen (err e, u) same =
          let (reason, known) = read_sample-OnlyAdb w e (ground arith) in
          (unavailable reason, rw known refl)

  -- One poll in a session adds one sample and leaves the sessions as they are.
  poll_once_lem :
      (now : String) (s : Polling W) (session : Session)
      → active_session s.store.sessions ≡ some session
      → (sample : Sample) × ((poll_once reader now s).0 ≡ ok sample)
        × (length (poll_once reader now s).1.store.samples ≡ suc (length s.store.samples))
        × ((poll_once reader now s).1.store.sessions ≡ s.store.sessions)
  unfolding poll_once on_outside on_store add_sample ◌>>=◌
  poll_once_lem now s session running =
      let (sample, seen) = caught_sample s.outside in
      (sample, ground arith, ground arith, ground arith)

  module _ (sleeper : ℕ → Exec (Polling W) (Unit {0})) (quiet : IsQuiet sleeper)
      (now : String) where
    pause_lem :
        (remaining : ℕ) (s : Polling W)
        → ((pause sleeper remaining s).0 ≡ ok tt) × ((pause sleeper remaining s).1.store ≡ s.store)
    unfolding pause
    pause_lem zero s = (refl, refl)
    pause_lem (suc remaining) s = ground (arith, quiet s.store.poll_interval_seconds s)

    run_once :
        (remaining count : ℕ) (s : Polling W) (session : Session)
        → active_session s.store.sessions ≡ some session
        → run sleeper reader now (suc remaining) count s
          ≡ run sleeper reader now remaining
              (suc count)
              (pause sleeper remaining (poll_once reader now s).1).1
    unfolding run status
    run_once remaining count s session running =
        let rest = run sleeper reader now remaining (suc count) in
        let (sample, polled, _, _) = poll_once_lem now s session running in
        let slept = pause_lem remaining (poll_once reader now s).1 in
        let first =
          bind-eq (poll_once reader now) (λ _. pause sleeper remaining >>= λ _. rest) s polled in
        let second =
          bind-eq (pause sleeper remaining) (λ _. rest) (poll_once reader now s).1 slept.0 in
        ground (arith, first, second)

    -- In a session that no other process stops, with a reader that raises nothing but an `AdbError`,
    -- the poller returns after as many samples as it was allowed, and has stored each of them.
    pub run-length :
        (remaining count : ℕ) (s : Polling W) (session : Session)
        → active_session s.store.sessions ≡ some session
        → ((run sleeper reader now remaining count s).0 ≡ ok (count + remaining))
          × (length (run sleeper reader now remaining count s).1.store.samples
              ≡ remaining + length s.store.samples)
    unfolding active_session
    run-length zero count s session running = unfold run in ground arith
    run-length (suc remaining) count s session running =
        let (sample, _, longer, same) = poll_once_lem now s session running in
        let slept = pause_lem remaining (poll_once reader now s).1 in
        let last = (pause sleeper remaining (poll_once reader now s).1).1 in
        let (counted, stored) =
          run-length remaining (suc count) last session (ground (arith, running)) in
        rw (run_once remaining count s session running) (ground arith, ground arith)
