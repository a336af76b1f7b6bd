-- ===== src/Controller/Downloader/Waiting.antt =====
-- The downloader's patience: its loop ends.
use tv_safety_cleaner.Prelude.{
  ℕ, suc, ◌<>◌, ◌+◌, ◌≤◌, ◌<◌, String, ◌≡◌, refl, Option, some, leb, Bool-cases, inl, inr, arith,
}
use tv_safety_cleaner.Prelude.Dict.{Dict}
use tv_safety_cleaner.Prelude.Json.{Json}
use tv_safety_cleaner.Exec.{Result, ◌>>=◌}
use tv_safety_cleaner.Controller.Downloader.{
  Net, Downloads, Attempt, got, failed, again, Step, stop, go, on_net, report, time, wait, waited,
  followed, attempt_once, poll_from, poll, poll_timeout,
}

-- The clock never goes back, and a pause of some seconds lasts at least as long.
pub record Steady {W : Type 0} (net : Net W) : Type 0 where
  pub fetching : (url : String) (w : W) → net.clock w ≤ net.clock (net.fetch_json url w).1
  pub pausing : (n : ℕ) (w : W) → net.clock w + n ≤ net.clock (net.sleep n w).1

module _ {W : Type 0} (net : Net W) (steady : Steady net) where
  wait-later :
      (timeout : ℕ) (task : String) (started attempt : ℕ) (text later : String) (s t : Downloads W)
      → waited net text (wait net timeout task started attempt text s) ≡ go later t
      → time net s < time net t
  unfolding wait report on_net ◌>>=◌
  wait-later timeout task started attempt text later s t h =
      ground (arith, steady.pausing 5 s.outside, steady.pausing 10 s.outside)

  followed-later :
      (timeout : ℕ) (task : String) (started attempt : ℕ) (a : Attempt) (later : String)
      (s t : Downloads W)
      → followed net timeout task started attempt a s ≡ go later t
      → time net s < time net t
  followed-later timeout task started attempt (got answer) later s t h = cc
  followed-later timeout task started attempt (failed e) later s t h = cc
  followed-later timeout task started attempt (again text) later s t h =
      wait-later timeout task started attempt text later s t h

  attempt-later :
      (timeout : ℕ) (url task : String) (started attempt : ℕ) (later : String) (s t : Downloads W)
      → attempt_once net timeout url task started attempt s ≡ go later t
      → time net s < time net t
  unfolding attempt_once on_net
  attempt-later timeout url task started attempt later s t h =
      let after : time net s ≤ net.clock (net.fetch_json url s.outside).1 =
        steady.fetching url s.outside in
      let paused = followed-later timeout task started attempt _ later _ t h in omega arith

  -- With a turn of fuel for every second that is left, the loop ends before the fuel does.
  poll_from-ends :
      (fuel timeout : ℕ) (p url task : String) (started attempt : ℕ) (text : String)
      (s : Downloads W)
      → 1 ≤ fuel
      → started + timeout < time net s + fuel
      → (r : Result (Dict Json) × Downloads W) × (poll_from net fuel timeout p url task started
            attempt text s
          ≡ some r)
  unfolding poll_from
  poll_from-ends ℕ.zero timeout p url task started attempt text s positive h = ground arith
  poll_from-ends (suc fuel) timeout p url task started attempt text s positive h =
      elim (Bool-cases (leb (started + timeout) (time net s))) [
        | inl over ↦ rw over (_, refl)
        | inr early ↦ rw early (
            turned (attempt_once net timeout url task started (suc attempt) s) refl (ground arith)
              (λ later t. poll_from-ends fuel timeout p url task started (suc attempt) later t))
      ]
    where
      turned :
          (step : Step W)
          → attempt_once net timeout url task started (suc attempt) s ≡ step
          → time net s < started + timeout
          → ((later : String) (t : Downloads W)
              → 1 ≤ fuel
              → started + timeout < time net t + fuel
              → (r : Result (Dict Json) × Downloads W) × (poll_from net fuel timeout p url task
                    started
                    (suc attempt)
                    later
                    t
                  ≡ some r))
          → (r : Result (Dict Json) × Downloads W) × ((elim step
                as (λ _. Option (Result (Dict Json) × Downloads W)) [
                  | stop r t ↦ some (r, t)
                  | go later t ↦ poll_from net fuel timeout p url task started (suc attempt) later t
                ])
              ≡ some r)
      turned (stop r t) same early ends = ((r, t), refl)
      turned (go later t) same early ends =
          let passed = attempt-later timeout url task started (suc attempt) later s t same in
          ends later t (omega arith) (omega arith)

  -- On a clock that never goes back and in which a pause lasts its seconds, polling ends within its fuel,
  -- whatever the downloader answers: the loop's result is the result.
  pub poll-ends :
      (endpoint p task : String) (s : Downloads W)
      → poll_from net
          (suc poll_timeout)
          poll_timeout
          p
          (endpoint <> "&id=" <> net.quote p)
          task
          (time net s)
          0
          "No response"
          s
        ≡ some (poll net endpoint p task s)
  unfolding poll
  poll-ends endpoint p task s =
      let (r, same) =
        poll_from-ends (suc poll_timeout) poll_timeout p (endpoint <> "&id=" <> net.quote p) task
          (time net s) 0 "No response" s (omega arith) (omega arith) in
      rw same refl
