-- ===== src/Controller/RateLimit.antt =====
-- `RateLimiter` of tv_controller/service.py. The monotonic clock's reading is an argument, a natural
-- number in any unit; `events[0] < now - window` is written without the subtraction.
use tv_safety_cleaner.Prelude.{
  ℕ, ◌+◌, ◌≤◌, String, ◌≡◌, refl, Bool, true, false, List, [], ◌∷◌, ◌++◌, ltb, leb, string_eq,
  if◌then◌else◌, length, arith,
}
use tv_safety_cleaner.Prelude.Dict.{Dict, get_or, insert, lookup-insert}

pub record RateLimiter : Type 0 where
  pub limit : ℕ
  pub window : ℕ
  pub events : Dict (List ℕ)

unfoldable pub without_old : ℕ → ℕ → List ℕ → List ℕ
without_old now window [] = []
without_old now window (e ∷ events) =
    let rest = without_old now window events in if ltb (e + window) now then rest else e ∷ events

abbrev pub events_of : String → RateLimiter → List ℕ
events_of key s = get_or [] key s.events

unfoldable pub allow : ℕ → String → RateLimiter → Bool × RateLimiter
unfolding without_old get_or insert
allow now key s =
    let recent = without_old now s.window (events_of key s) in
    if leb s.limit (length recent)
    then (false, record s { events = insert key recent s.events })
    else (true, record s { events = insert key (recent ++ (now ∷ [])) s.events })

-- Requests with their times, one after the other.
unfoldable pub requests : List (ℕ × String) → RateLimiter → RateLimiter
unfolding allow
requests [] s = s
requests ((now, key) ∷ rest) s = requests rest (allow now key s).1

abbrev pub IsBounded : RateLimiter → Type 0
IsBounded s = (key : String) → length (events_of key s) ≤ s.limit

length-without_old :
    (now window : ℕ) (events : List ℕ) → length (without_old now window events) ≤ length events
unfolding without_old
length-without_old now window [] = omega arith
length-without_old now window (e ∷ events) = ground (arith, length-without_old now window events)

length-snoc : (xs : List ℕ) (x : ℕ) → length (xs ++ (x ∷ [])) ≡ length xs + 1
length-snoc [] x = refl
length-snoc (y ∷ xs) x = ground (arith, length-snoc xs x)

allow-IsBounded :
    (now : ℕ) (key : String) (s : RateLimiter) → IsBounded s → IsBounded (allow now key s).1
unfolding allow get_or
allow-IsBounded now key s h other =
    let recent = without_old now s.window (events_of key s) in
    ground (
      arith,
      h key,
      h other,
      length-without_old now s.window (events_of key s),
      length-snoc recent now,
      lookup-insert key other recent s.events,
      lookup-insert key other (recent ++ (now ∷ [])) s.events,
    )

-- However many requests arrive, and at whatever times, no key ever has more remembered events than the
-- limit, if none had before.
pub requests-IsBounded :
    (rest : List (ℕ × String)) (s : RateLimiter) → IsBounded s → IsBounded (requests rest s)
unfolding requests
requests-IsBounded [] s h = h
requests-IsBounded ((now, key) ∷ rest) s h =
    requests-IsBounded rest (allow now key s).1 (allow-IsBounded now key s h)
