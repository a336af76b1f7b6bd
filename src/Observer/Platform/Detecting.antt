-- ===== src/Observer/Platform/Detecting.antt =====
-- When a platform is detected: exactly if it alone has two signals.
use tv_safety_cleaner.Prelude.{
  ℕ, ◌≤◌, ◌<◌, String, ◌≡◌, ◌≢◌, ◌↔◌, Bool, true, false, List, [], ◌∷◌, ◌++◌, length, leb,
  if◌then◌else◌, arith,
}
use tv_safety_cleaner.Observer.Platform.{
  Platform, PlatformEvidence, fire_os, google_tv, android_tv, vega_os, unknown, present,
  fire_signals, vega_signals, google_signals, android_signals, candidate, decide, detect_platform,
}

-- How many signals of the platform are present.
abbrev pub votes : PlatformEvidence → Platform → ℕ
votes evidence fire_os = length (present (fire_signals evidence))
votes evidence vega_os = length (present (vega_signals evidence))
votes evidence google_tv = length (present (google_signals evidence))
votes evidence android_tv = length (present (android_signals evidence))
votes evidence unknown = 0

abbrev winner : Bool → Bool → Bool → Bool → Platform
winner true false false false = fire_os
winner false true false false = vega_os
winner false false true false = google_tv
winner false false false true = android_tv
winner _ _ _ _ = unknown

-- The platform that the candidates decide on, by which of them there are.
decide-winner :
    (a b c d : Bool) (e f g h : List String)
    → (decide (
        (if a then (fire_os, e) ∷ [] else [])
        ++ ((if b then (vega_os, f) ∷ [] else [])
            ++ ((if c then (google_tv, g) ∷ [] else [])
                ++ (if d then (android_tv, h) ∷ [] else []))))).platform
      ≡ winner a b c d
unfolding decide
decide-winner true true c d e f g h = ground arith
decide-winner true false c d e f g h = ground arith
decide-winner false true c d e f g h = ground arith
decide-winner false false c d e f g h = ground arith

module _ (evidence : PlatformEvidence) where
  abbrev enough : Platform → Bool
  enough p = leb 2 (votes evidence p)

  detected :
      (detect_platform evidence).platform
      ≡ winner (enough fire_os) (enough vega_os) (enough google_tv) (enough android_tv)
  unfolding detect_platform candidate
  detected = decide-winner _ _ _ _ _ _ _ _

  alone :
      (p q : Platform)
      → p ≢ unknown
      → (detect_platform evidence).platform ≡ p
      → q ≢ p
      → votes evidence q < 2
  alone p fire_os known found other = ground (arith, detected)
  alone p vega_os known found other = ground (arith, detected)
  alone p google_tv known found other = ground (arith, detected)
  alone p android_tv known found other = ground (arith, detected)
  alone p unknown known found other = omega arith

  has_two :
      (p : Platform) → p ≢ unknown → (detect_platform evidence).platform ≡ p → 2 ≤ votes evidence p
  has_two p known found = ground (arith, detected)

  -- A platform is detected exactly if two of its own signals are present and no other platform has two.
  pub detect_platform_iff :
      (p : Platform)
      → p ≢ unknown
      → ((detect_platform evidence).platform ≡ p)
        ↔ ((2 ≤ votes evidence p) × ((q : Platform) → q ≢ p → votes evidence q < 2))
  detect_platform_iff p known = (
    λ found. (has_two p known found, λ q other. alone p q known found other),
    λ h. ground (arith, detected, h.1 fire_os, h.1 vega_os, h.1 google_tv, h.1 android_tv),
  )
