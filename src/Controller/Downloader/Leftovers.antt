-- ===== src/Controller/Downloader/Leftovers.antt =====
-- What a download leaves in the folder.
use tv_safety_cleaner.Prelude.{String, ◌≡◌, ◌⊎◌, inl, inr, refl, sym, ap, true, string_eq, arith}
use mathlib.Core.Path.{subst}
use tv_safety_cleaner.Prelude.Dict.{Dict, insert, lookup-insert}
use tv_safety_cleaner.Prelude.Json.{Json}
use tv_safety_cleaner.Exec.{
  lift, Exec, Result, ok, err, Error, raise, catch, handle, continue, bind-eq-ok, pure, ◌>>=◌, ◌>>◌,
}
use tv_safety_cleaner.Exec.Keeps.{Keeps, Keeps-lift}
use tv_safety_cleaner.Controller.Names.{UrlLib, parse_package_input}
use tv_safety_cleaner.Controller.Downloader.{File, Net, Downloads, report}
use tv_safety_cleaner.Controller.Downloader.Storing.{
  metadata_name, has_file, clean_up, store, with_files, file_name, failure, locate, download,
}
use tv_safety_cleaner.Controller.Downloader.Folder.{
  Tidied, clean_up-Tidied, FilesAre, file_rules, poll-Keeps, raised,
}

-- What is known of the state where an action returns.
record Posts {W A : Type 0} (Q : A → Dict File → Type 0) (m : Exec (Downloads W) A) : Type 0 where
  at : (s : Downloads W) (a : A) (t : Downloads W) → m s ≡ (ok a, t) → Q a t.files

module _ {W A B : Type 0} {Q : B → Dict File → Type 0} where
  Posts-bind :
      (m : Exec (Downloads W) A) (f : A → Exec (Downloads W) B)
      → ((a : A) → Posts Q (f a))
      → Posts Q (m >>= f)
  Posts-bind m f k = record {
    at = λ s b t h. let (a, u, _, rest) = bind-eq-ok m f s h in (k a).at u b t rest;
  }

-- This archive's name is returned, and its metadata is there.
abbrev Saved : String → String → Dict File → Type 0
Saved name returned files = (returned ≡ name) × (has_file (metadata_name returned) files ≡ true)

module _ {W : Type 0} (net : Net W) (lib : UrlLib) where
  written :
      (name task : String) (f : File) (changes : Dict Json)
      → Posts {W = W}
          (Saved name)
          (with_files (insert (metadata_name name) f) >> (report task changes >> pure name))
  unfolding report ◌>>=◌
  written name task f changes = record {
    at = λ s a t h.
        let same : a ≡ name = ground arith in
        (same, ground (arith, lookup-insert (metadata_name name) (metadata_name name) f s.files));
  }

  store-Posts :
      (task p name url : String) (answer : Dict Json)
      → Posts (Saved name) (store net lib task p name url answer)
  unfolding store
  store-Posts task p name url answer = search (Posts-bind, written) depth 16

  -- The file that a download is for has been located, and has this name.
  abbrev pub IsFor : String → String → String → Downloads W → String → Type 0
  IsFor endpoint text task s name =
      (p : String) × (url : String) × (answer : Dict Json) × (t : Downloads W)
      × (parse_package_input lib text ≡ ok p)
      × (locate net lib endpoint p task s ≡ (ok (name, url, answer), t))

  -- What is left where `For` tells which file the download was for.
  abbrev pub Leaves : (String → Type 0) → Dict File → Result String × Downloads W → Type 0
  Leaves For before (ok name, t) = For name × (has_file (metadata_name name) t.files ≡ true)
  Leaves For before (err e, t) =
      (t.files ≡ before) ⊎ ((name : String) × For name × Tidied name t.files)

  bind-Leaves :
      {A : Type 0} (For : String → Type 0) (before : Dict File) (m : Exec (Downloads W) A)
      (f : A → Exec (Downloads W) String) (s : Downloads W)
      → (m s).1.files ≡ before
      → ((a : A) (t : Downloads W) → m s ≡ (ok a, t) → Leaves For before (f a t))
      → Leaves For before ((m >>= f) s)
  unfolding ◌>>=◌
  bind-Leaves {A} For before m f s h rest = continued (m s) refl h
    where
      continued :
          (r : Result A × Downloads W)
          → m s ≡ r
          → r.1.files ≡ before
          → Leaves For before (continue f r)
      continued (ok a, t) same g = rest a t same
      continued (err e, t) same g = inl g

  stored-Leaves :
      (For : String → Type 0) (before : Dict File) (task p name url : String) (answer : Dict Json)
      (s : Downloads W)
      → For name
      → Leaves For before (catch (store net lib task p name url answer) (clean_up task name) s)
  unfolding catch
  stored-Leaves For before task p name url answer s is_for =
      handled (store net lib task p name url answer s) refl
    where
      cleared :
          (r : Result String × Downloads W)
          → (error : Error) × (r.0 ≡ err error)
          → Tidied name r.1.files
          → Leaves For before r
      cleared (ok a, t) (error, wrong) tidied = cc
      cleared (err e, t) _ tidied = inr (name, is_for, tidied)

      handled :
          (r : Result String × Downloads W)
          → store net lib task p name url answer s ≡ r
          → Leaves For before (handle (clean_up task name) r)
      handled (ok a, t) same =
          let (named, there) = (store-Posts task p name url answer).at s a t same in
          (subst For (sym named) is_for, there)
      handled (err e, t) same =
          let (raises, tidied) = clean_up-Tidied task name e t in
          cleared (clean_up task name e t) raises tidied

  -- A search that returns after its handler has returned by itself.
  caught-returns :
      {A : Type 0} (m : Exec (Downloads W) A) (task : String) (s : Downloads W) {a : A}
      {t : Downloads W}
      → catch m (λ e. report task (failure e) >> raise e) s ≡ (ok a, t)
      → m s ≡ (ok a, t)
  unfolding catch
  caught-returns {A} m task s {a} {t} h = returned (m s) h
    where
      returned :
          (r : Result A × Downloads W)
          → handle (λ e. report task (failure e) >> raise e) r ≡ (ok a, t)
          → r ≡ (ok a, t)
      returned (ok b, u) same = same
      returned (err e, u) same =
          let (error, raises) = raised {B = A} (report task (failure e)) e u in
          ground (arith, raises, same)

  locate-Keeps :
      (before : Dict File) (endpoint p task : String)
      → Keeps
          (FilesAre before)
          (catch (locate net lib endpoint p task) (λ e. report task (failure e) >> raise e))
  unfolding locate
  locate-Keeps before endpoint p task = search (file_rules, poll-Keeps, named) depth 16
    where
      named :
          (url : String) → Keeps (FilesAre {W = W} before) (λ s. (file_name net lib p s.now url, s))
      named url = record { at = λ s h. h }

  lift_returns :
      (r : Result String) (s : Downloads W) {p : String} {t : Downloads W}
      → lift r s ≡ (ok p, t)
      → (r ≡ ok p) × (t ≡ s)
  unfolding lift
  lift_returns r s {p} {t} h = (ground arith, ground arith)

  -- However a download ends: if it returns a name, that is the name under which the download's file was
  -- located, and the archive's metadata is there; if it raises, the folder is as it was, or the file was
  -- located, and no part is left of it, and no archive of its name without its metadata.
  pub download-Leaves :
      (endpoint text task : String) (s : Downloads W)
      → Leaves (IsFor endpoint text task s) s.files (download net lib endpoint text task s)
  unfolding download
  download-Leaves endpoint text task s =
      bind-Leaves For s.files _ _ s
        ((Keeps-lift {I = FilesAre s.files} _).at s (record { holds = refl })).holds
        λ p t parsed.
          let (known, here) = lift_returns (parse_package_input lib text) s parsed in
          bind-Leaves For s.files _ _ t
            ((locate-Keeps s.files endpoint p task).at t
              (record { holds = ap (λ u. u.files) here })).holds
            λ found u ran. stored-Leaves For s.files task p found.0 found.1 found.2 u (
              p,
              found.1,
              found.2,
              u,
              known,
              subst (λ v. locate net lib endpoint p task v ≡ (ok found, u)) here
                  (caught-returns (locate net lib endpoint p task) task t ran),
            )
    where
      For : String → Type 0
      For = IsFor endpoint text task s
