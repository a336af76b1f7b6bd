-- ===== src/Controller/Downloader/Folder.antt =====
-- What the steps of a download do to the folder: what a tidied folder is, and which steps leave it as it
-- was.
use tv_safety_cleaner.Prelude.{
  ℕ, suc, ◌+◌, ◌-◌, ◌<>◌, leb, String, ◌≡◌, ◌⊎◌, inl, inr, refl, Bool, true, false, Option, none,
  some, [], ◌∷◌, ◌==◌, string_eq, if◌then◌else◌, arith,
}
use tv_safety_cleaner.Prelude.Dict.{Dict, lookup}
use tv_safety_cleaner.Prelude.Json.{Json}
use tv_safety_cleaner.Exec.{Exec, Result, ok, err, Error, os_error, raise, continue, ◌>>=◌, ◌>>◌}
use tv_safety_cleaner.Exec.Keeps.{Keeps, keeps_rules, Keeps-lift}
use tv_safety_cleaner.Controller.Downloader.{
  File, Net, Downloads, Attempt, got, failed, again, Step, stop, go, on_net, report, wait, waited,
  followed, attempt_once, poll_from, poll, poll_timeout, waiting, pause_after, time, or_stuck,
}
use tv_safety_cleaner.Controller.Downloader.Storing.{
  remove, part_name, metadata_name, has_file, cleaned, clean_up, failure,
}

lookup-remove :
    (name other : String) (files : Dict File)
    → lookup other (remove name files) ≡ (if name == other then none else lookup other files)
unfolding lookup remove
lookup-remove name other [] = ground arith
lookup-remove name other ((key, f) ∷ files) = ground (arith, lookup-remove name other files)

-- No part of `name` is there, and no archive of that name without its metadata.
pub record Tidied (name : String) (files : Dict File) : Type 0 where
  pub no_part : lookup (part_name name) files ≡ none
  pub no_orphan : (has_file (metadata_name name) files ≡ true) ⊎ (lookup name files ≡ none)

cleaned-Tidied : (name : String) (files : Dict File) → Tidied name (cleaned name files)
cleaned-Tidied name files =
    decided (has_file (metadata_name name) (remove (part_name name) files)) refl
  where
    decided :
        (b : Bool)
        → has_file (metadata_name name) (remove (part_name name) files) ≡ b
        → Tidied name (
            if b
            then remove (part_name name) files
            else remove name (remove (part_name name) files))
    decided true e = record {
      no_part = ground (arith, lookup-remove (part_name name) (part_name name) files);
      no_orphan = inl e;
    }
    decided false e = record {
      no_part = ground (
        arith,
        lookup-remove (part_name name) (part_name name) files,
        lookup-remove name (part_name name) (remove (part_name name) files),
      );
      no_orphan = inr (ground (arith, lookup-remove name name (remove (part_name name) files)));
    }

module _ {S A B : Type 0} where
  -- Whatever comes before, an action that ends in `raise` does not return.
  pub raised :
      (m : Exec S A) (e : Error) (s : S)
      → (error : Error) × ((m >> raise {A = B} e) s).0 ≡ err error
  unfolding ◌>>=◌
  raised m e s = by_result (m s)
    where
      by_result :
          (r : Result A × S) → (error : Error) × ((continue (λ _. raise {A = B} e) r).0 ≡ err error)
      by_result (ok a, t) = (e, refl)
      by_result (err f, t) = (f, refl)

-- The folder is as it was.
pub record FilesAre {W : Type 0} (files : Dict File) (s : Downloads W) : Type 0 where
  pub holds : s.files ≡ files

module _ {W : Type 0} (files : Dict File) where
  pub report-Keeps :
      (task : String) (changes : Dict Json) → Keeps (FilesAre {W = W} files) (report task changes)
  unfolding report
  report-Keeps task changes = record { at = λ s h. record { holds = h.holds } }

  pub on_net-Keeps : {A : Type 0} (m : Exec W A) → Keeps (FilesAre {W = W} files) (on_net m)
  unfolding on_net
  on_net-Keeps m = record { at = λ s h. record { holds = h.holds } }

pub ruleset file_rules = (keeps_rules, report-Keeps, on_net-Keeps)

module _ {W : Type 0} where
  pub clean_up-Tidied :
      (task name : String) (e : Error) (s : Downloads W)
      → ((error : Error) × ((clean_up task name e s).0 ≡ err error))
        × Tidied name (clean_up task name e s).1.files
  unfolding clean_up
  clean_up-Tidied task name e s = (
    unfold ◌>>=◌ in raised (report task (failure e)) e _,
    unfold ◌>>=◌ in
        rw
          (reporting.at (record s { files = cleaned name s.files }) (record { holds = refl })).holds
          (cleaned-Tidied name s.files),
  )
    where
      reporting :
          Keeps
            (FilesAre {W = W} (cleaned name s.files))
            (report task (failure e) >> raise {A = String} e)
      reporting = search file_rules depth 12

module _ {W : Type 0} (net : Net W) (files : Dict File) where
  wait-files :
      (timeout : ℕ) (task : String) (started attempt : ℕ) (text : String) (s : Downloads W)
      → s.files ≡ files
      → (wait net timeout task started attempt text s).1.files ≡ files
  unfolding wait
  wait-files timeout task started attempt text s h =
      let k = waiting_kept (waiting attempt timeout (time net s - started) text) in
      (k.at s (record { holds = h })).holds
    where
      waiting_kept :
          (changes : Dict Json)
          → Keeps (FilesAre files) (report task changes >> on_net (net.sleep (pause_after attempt)))
      waiting_kept changes = search file_rules depth 12

  -- Where a turn of the loop ends, the folder is the same.
  abbrev StepFiles : Step W → Type 0
  StepFiles (stop r t) = t.files ≡ files
  StepFiles (go text t) = t.files ≡ files

  waited-files :
      (text : String) (r : Result (Unit {0}) × Downloads W)
      → r.1.files ≡ files
      → StepFiles (waited net text r)
  waited-files text (ok u, t) h = h
  waited-files text (err e, t) h = h

  followed-files :
      (timeout : ℕ) (task : String) (started attempt : ℕ) (a : Attempt) (s : Downloads W)
      → s.files ≡ files
      → StepFiles (followed net timeout task started attempt a s)
  followed-files timeout task started attempt (got answer) s h = h
  followed-files timeout task started attempt (failed e) s h = h
  followed-files timeout task started attempt (again text) s h =
      waited-files text _ (wait-files timeout task started attempt text s h)

  attempt-files :
      (timeout : ℕ) (url task : String) (started attempt : ℕ) (s : Downloads W)
      → s.files ≡ files
      → StepFiles (attempt_once net timeout url task started attempt s)
  unfolding attempt_once on_net
  attempt-files timeout url task started attempt s h =
      followed-files timeout task started attempt _ _ h

  poll_from-files :
      (fuel timeout : ℕ) (p url task : String) (started attempt : ℕ) (text : String)
      (s base : Downloads W)
      → s.files ≡ files
      → base.files ≡ files
      → (or_stuck net base (poll_from net fuel timeout p url task started attempt text s)).1.files
        ≡ files
  unfolding poll_from
  poll_from-files ℕ.zero timeout p url task started attempt text s base h g = g
  poll_from-files (suc fuel) timeout p url task started attempt text s base h g =
      decided (leb (started + timeout) (time net s))
        (attempt_once net timeout url task started (suc attempt) s)
        (attempt-files timeout url task started (suc attempt) s h)
        (λ later t k.
          poll_from-files fuel timeout p url task started (suc attempt) later t base k g)
    where
      decided :
          (over : Bool) (step : Step W)
          → StepFiles step
          → ((later : String) (t : Downloads W)
              → t.files ≡ files
              → (or_stuck net base
                  (poll_from net fuel timeout p url task started (suc attempt) later t)).1.files
                ≡ files)
          → (or_stuck net base (
              if over
              then some (err (os_error ("APK downloader timeout for " <> p <> ": " <> text)), s)
              else elim step as (λ _. Option (Result (Dict Json) × Downloads W)) [
                | stop r t ↦ some (r, t)
                | go later t ↦ poll_from net fuel timeout p url task started (suc attempt) later t
              ])).1.files
            ≡ files
      decided true step k ih = h
      decided false (stop r t) k ih = k
      decided false (go later t) k ih = ih later t k

  pub poll-Keeps : (endpoint p task : String) → Keeps (FilesAre files) (poll net endpoint p task)
  unfolding poll
  poll-Keeps endpoint p task = record {
    at = λ s h. record {
      holds =
          poll_from-files (suc poll_timeout) poll_timeout p (endpoint <> "&id=" <> net.quote p) task
            (time net s) 0 "No response" s s h.holds h.holds;
    };
  }
