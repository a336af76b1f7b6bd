-- ===== src/Controller/Jobs/Archives.antt =====
-- `delete_local_apk` of tv_controller/apk_manager.py: an archive is deleted only if no operation and
-- no profile needs it.
use tv_safety_cleaner.Prelude.{
  ◌<>◌, show, String, ◌≡◌, Bool, false, List, [], ◌∷◌, ◌&&◌, ◌||◌, not, ◌==◌, string_eq,
  if◌then◌else◌, any, select, arith, le_text, All, ◌⊎◌, inl, inr, ◌≢◌, true, Bool-cases,
}
use tv_safety_cleaner.Prelude.Dict.{Dict}
use tv_safety_cleaner.Exec.{Exec, Result, ok, err, refusal, ◌>>=◌, ◌>>◌}
use tv_safety_cleaner.Controller.Journal.{Row, Status, recent, is_revertible}
use tv_safety_cleaner.Controller.Jobs.{
  Manager, Host, Apk, StateProfile, ProfilePackage, consult, resolve,
}

-- An operation that could still be rolled back with this archive.
abbrev pub needs : String → Row → Bool
needs filename r = is_revertible r.status && (filename == r.before_apk || filename == r.after_apk)

unfoldable pub refuse_needed : String → List Row → Result (Unit {0})
refuse_needed filename [] = ok tt
refuse_needed filename (r ∷ rows) =
    let rest = refuse_needed filename rows in
    if needs filename r
    then err (refusal ("APK is retained by rollback operation #" <> show r.id))
    else rest

abbrev pub uses : String → StateProfile → Bool
uses filename p = any (λ item. item.apk_file == filename) p.packages

unfoldable pub refuse_used : String → List StateProfile → Result (Unit {0})
refuse_used filename [] = ok tt
refuse_used filename (p ∷ profiles) =
    let rest = refuse_used filename profiles in
    if uses filename p then err (refusal ("APK is retained by state profile: " <> p.name)) else rest

-- `sorted(…, key=created_at, reverse=True)`, one profile at a time.
abbrev newest_first : StateProfile → List StateProfile → List StateProfile
newest_first p [] = p ∷ []
newest_first p (q ∷ qs) =
    let rest = newest_first p qs in
    if le_text q.created_at p.created_at then p ∷ q ∷ qs else q ∷ rest

-- `StateProfileStore.list`: newest first.
unfoldable pub list_profiles : Dict StateProfile → List StateProfile
list_profiles [] = []
list_profiles ((_, p) ∷ rest) = newest_first p (list_profiles rest)

-- `self.journal.list(limit=10000)`
abbrev pub listed : List Row → List Row
listed rows = recent 10000 rows

abbrev pub without : String → List Apk → List Apk
without name apks = select (λ apk. not (apk.file == name)) apks

module _ {W : Type 0} (host : Host W) where
  -- `ApkRepository.delete`
  unfoldable pub delete : String → Exec (Manager W) (Unit {0})
  unfolding resolve
  delete filename s = elim (resolve host.lib filename s.apks) [
    | err e ↦ (err e, s)
    | ok name ↦ (ok tt, record s { apks = without name s.apks })
  ]

  unfoldable pub delete_local_apk : String → Exec (Manager W) (Unit {0})
  delete_local_apk filename = do
    consult (λ s. refuse_needed filename (listed s.journal.rows))
    consult (λ s. refuse_used filename (list_profiles s.profiles))
    delete filename

-- The operation has neither been applied nor lost its outcome, or its archives have other names.
abbrev pub NotNeeded : String → Row → Type 0
NotNeeded filename r =
    ((r.status ≢ Status.applied) × (r.status ≢ Status.uncertain))
    ⊎ ((r.before_apk ≢ filename) × (r.after_apk ≢ filename))

-- No package of the profile has an archive of that name.
abbrev pub NotUsed : String → StateProfile → Type 0
NotUsed filename p = All (λ item. item.apk_file ≢ filename) p.packages

not_needed : (filename : String) (r : Row) → needs filename r ≡ false → NotNeeded filename r
not_needed filename r h = elim (Bool-cases (is_revertible r.status)) [
  | inl e ↦ inr (ground arith, ground arith)
  | inr e ↦ inl (λ applied. ground (arith, applied, e), λ uncertain. ground (arith, uncertain, e))
]

none_needed :
    (filename : String) (rows : List Row)
    → refuse_needed filename rows ≡ ok tt
    → All (NotNeeded filename) rows
unfolding refuse_needed
none_needed filename [] h = tt
none_needed filename (r ∷ rows) h =
    (not_needed filename r (ground arith), none_needed filename rows (ground arith))

not_used :
    (filename : String) (items : List ProfilePackage)
    → any (λ item. item.apk_file == filename) items ≡ false
    → All (λ item. item.apk_file ≢ filename) items
not_used filename [] h = tt
not_used filename (item ∷ items) h = (ground arith, not_used filename items (ground arith))

none_used :
    (filename : String) (profiles : List StateProfile)
    → refuse_used filename profiles ≡ ok tt
    → All (NotUsed filename) profiles
unfolding refuse_used
none_used filename [] h = tt
none_used filename (p ∷ profiles) h =
    (not_used filename p.packages (ground arith), none_used filename profiles (ground arith))

-- The listing that is sorted holds every profile of the store.
of_newest_first :
    (filename : String) (p : StateProfile) (qs : List StateProfile)
    → All (NotUsed filename) (newest_first p qs)
    → NotUsed filename p × All (NotUsed filename) qs
of_newest_first filename p [] h = h
of_newest_first filename p (q ∷ qs) h =
    placed (le_text q.created_at p.created_at) h (of_newest_first filename p qs)
  where
    placed :
        (b : Bool)
        → All (NotUsed filename) (if b then p ∷ q ∷ qs else q ∷ newest_first p qs)
        → (All (NotUsed filename) (newest_first p qs)
            → NotUsed filename p × All (NotUsed filename) qs)
        → NotUsed filename p × All (NotUsed filename) (q ∷ qs)
    placed true h ih = h
    placed false h ih = let (own, others) = ih h.1 in (own, (h.0, others))

of_list_profiles :
    (filename : String) (profiles : Dict StateProfile)
    → All (NotUsed filename) (list_profiles profiles)
    → All (λ entry. NotUsed filename entry.1) profiles
unfolding list_profiles
of_list_profiles filename [] h = tt
of_list_profiles filename ((i, p) ∷ profiles) h =
    let (own, others) = of_newest_first filename p (list_profiles profiles) h in
    (own, of_list_profiles filename profiles others)

module _ {W : Type 0} (host : Host W) where
  -- An archive that is deleted under its own name is named, as the archive before or after, by none of
  -- the newest 10000 operations whose status is applied or uncertain, and by no package of a profile of
  -- the store; no other archive is deleted, and nothing else changes.
  pub delete_local_apk_lem :
      (filename : String) (s : Manager W)
      → resolve host.lib filename s.apks ≡ ok filename
      → (delete_local_apk host filename s).0 ≡ ok tt
      → All (NotNeeded filename) (recent 10000 s.journal.rows)
        × All (λ entry. NotUsed filename entry.1) s.profiles
        × ((delete_local_apk host filename s).1 ≡ record s { apks = without filename s.apks })
  unfolding delete_local_apk delete consult ◌>>=◌
  delete_local_apk_lem filename s named h = (
    none_needed filename (listed s.journal.rows) (ground arith),
    of_list_profiles filename s.profiles
        (none_used filename (list_profiles s.profiles) (ground arith)),
    ground arith,
  )
