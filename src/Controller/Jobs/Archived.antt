-- ===== src/Controller/Jobs/Archived.antt =====
-- What a removal that was started has secured: the exact archive of what it is about to remove.
use tv_safety_cleaner.Prelude.{
  ℕ, String, ◌≡◌, true, false, List, [], ◌∷◌, is_empty, ◌⊎◌, string_eq, nat_eq,
}
use tv_safety_cleaner.Controller.Journal.{Row, Inverse, Status}
use tv_safety_cleaner.Controller.Planner.{is_never_touch}
use tv_safety_cleaner.Controller.Jobs.{Manager, Apk}

-- One of the archives has this name, and is of exactly this version of the package.
abbrev pub IsArchive : String → String → ℕ → List Apk → Type 0
IsArchive file p version [] = ⊥
IsArchive file p version (apk ∷ apks) =
    ((apk.file ≡ file) × (apk.package_id ≡ p) × (apk.version_code ≡ version))
    ⊎ IsArchive file p version apks

-- What a started removal has secured.
pub record Secured {W : Type 0} (s t : Manager W) (r : Row) : Type 0 where
  pub begun : t.journal.rows ≡ r ∷ s.journal.rows
  pub pending : r.status ≡ Status.pending
  pub installed : r.before.installed ≡ true
  pub touchable : is_never_touch r.package_id ≡ false
  pub inverse : r.inverse_action ≡ Inverse.install_apk
  pub archived : is_empty r.before_apk ≡ false
  pub exact : IsArchive r.before_apk r.package_id r.before.version_code s.apks
