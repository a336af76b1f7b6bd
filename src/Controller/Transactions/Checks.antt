-- ===== src/Controller/Transactions/Checks.antt =====
-- What the health checks of `execute` ask of the adapter, and what they leave in the journal.
use tv_safety_cleaner.Prelude.{
  String_discrete, if◌then◌else◌, String, ◌≡◌, Bool, true, false, Option, none, some, List, [], ◌∷◌,
  arith,
}
use tv_safety_cleaner.Prelude.Dict.{Dict, insert}
use tv_safety_cleaner.Exec.{Exec, ok, ◌>>=◌, bind-eq-ok, pure}
use tv_safety_cleaner.Controller.Transactions.{
  MutationAdapter, Engine, health_checks, check_health, on_outside,
}

abbrev pub all_healthy : Dict Bool
all_healthy = ("adb", true) ∷ ("launcher", true) ∷ ("settings", true) ∷ ("network", true) ∷ []

-- Checks that the adapter made in this order, from one state of the world to another, up to the first
-- that failed.
pub data Checked {W : Type 0} (adapter : MutationAdapter W)
    : List String → W → Option String → W → Type 0 where
  all_passed : {w : W} → Checked adapter [] w none w
  failed_at :
      {check : String} {checks : List String} {w v : W}
      → adapter.health check w ≡ (ok false, v)
      → Checked adapter (check ∷ checks) w (some check) v
  passed :
      {check : String} {checks : List String} {w v u : W} {failing : Option String}
      → adapter.health check w ≡ (ok true, v)
      → Checked adapter checks v failing u
      → Checked adapter (check ∷ checks) w failing u

abbrev pub the_checks : List String
the_checks = "adb" ∷ "launcher" ∷ "settings" ∷ "network" ∷ []

module _ {W : Type 0} (adapter : MutationAdapter W) (now : String) where
  -- The checks leave the journal alone, and if none fails, all were seen to pass.
  pub check_health_lem :
      (s : Engine W) {health : Dict Bool} {failing : Option String} {t : Engine W}
      → check_health adapter now health_checks [] s ≡ (ok (health, failing), t)
      → (t.journal ≡ s.journal) × (failing ≡ none → health ≡ all_healthy)
  unfolding check_health insert on_outside ◌>>=◌ String_discrete
  check_health_lem s {health} {failing} {t} h = ground arith

  -- A call of the adapter that returned.
  pub on_outside_lem :
      {A : Type 0} (m : Exec W A) (s : Engine W) {a : A} {t : Engine W}
      → on_outside m s ≡ (ok a, t)
      → (m s.outside ≡ (ok a, t.outside)) × (t.journal ≡ s.journal)
  unfolding on_outside
  on_outside_lem m s {a} {t} h = (ground arith, ground arith)

  -- The checks that were made are the adapter's.
  pub check_health-Checked :
      (checks : List String) (seen : Dict Bool) (s : Engine W) {health : Dict Bool}
      {failing : Option String} {t : Engine W}
      → check_health adapter now checks seen s ≡ (ok (health, failing), t)
      → Checked adapter checks s.outside failing t.outside
  unfolding check_health
  check_health-Checked [] seen s {health} {failing} {t} h =
      let none_failed : failing ≡ none = unfold pure in ground arith in
      let same : t.outside ≡ s.outside = unfold pure in ground arith in
      rw (none_failed, same) all_passed
  check_health-Checked (check ∷ checks) seen s {health} {failing} {t} h =
      let (healthy, u, asked, rest) = bind-eq-ok _ _ s h in
      decided healthy u (on_outside_lem (adapter.health check) s asked).0 rest
        (λ k. check_health-Checked checks (insert check true seen) u {health = health} {t = t} k)
    where
      decided :
          (healthy : Bool) (u : Engine W)
          → adapter.health check s.outside ≡ (ok healthy, u.outside)
          → (if healthy
                then check_health adapter now checks (insert check true seen)
                else pure (insert check false seen, some check))
              u
            ≡ (ok (health, failing), t)
          → (check_health adapter now checks (insert check true seen) u ≡ (ok (health, failing), t)
              → Checked adapter checks u.outside failing t.outside)
          → Checked adapter (check ∷ checks) s.outside failing t.outside
      decided true u answer rest ih = passed answer (ih rest)
      decided false u answer rest ih =
          let stopped : failing ≡ some check = unfold pure in ground arith in
          let same : t.outside ≡ u.outside = unfold pure in ground arith in
          rw (stopped, same) (failed_at answer)
