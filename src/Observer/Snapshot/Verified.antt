-- ===== src/Observer/Snapshot/Verified.antt =====
-- What a verified snapshot is.
use tv_safety_cleaner.Prelude.{
  String, ◌≡◌, refl, true, false, Option, none, some, List, [], ◌∷◌, string_eq, all, contains, All,
  split_lines, arith,
}
use tv_safety_cleaner.Prelude.Dict.{Dict, lookup}
use tv_safety_cleaner.Prelude.Json.{Json}
use tv_safety_cleaner.Exec.{ok, chain-eq-ok}
use tv_safety_cleaner.Observer.Snapshot.{
  checksum_text, check_required, check_entries, check_manifest, Directory, FileLib, file_at,
  split_line, check_line, check_lines, load, load_all, verify_snapshot, json_files, checksum_name,
  is_checked,
}

module _ (lib : FileLib) (dir : Directory) where
  -- The line names a file of the directory, with the digest that the file has.
  pub record Checks (line name : String) : Type 0 where
    pub digest : String
    pub text : String
    pub read : split_line line ≡ some (digest, name)
    pub present : file_at name dir ≡ some text
    pub same : lib.digest text ≡ digest

  -- Every line checks a file that no line before it has checked; all of them together check `expected`.
  abbrev pub CheckLines : List String → List String → List String → Type 0
  CheckLines seen [] expected = seen ≡ expected
  CheckLines seen (line ∷ lines) expected =
      (name : String) × Checks line name
      × (contains name seen ≡ false)
      × CheckLines (name ∷ seen) lines expected

  check_line-Checks :
      (seen : List String) (line name : String)
      → check_line lib dir seen line ≡ ok name
      → Checks line name × (contains name seen ≡ false)
  unfolding check_line
  check_line-Checks seen line name h = by_parts (split_line line) refl h
    where
      by_parts :
          (parts : Option (String × String))
          → split_line line ≡ parts
          → check_line lib dir seen line ≡ ok name
          → Checks line name × (contains name seen ≡ false)
      by_parts none e h = ground arith
      by_parts (some (digest, n)) e h = by_file (file_at n dir) refl
        where
          by_file :
              (o : Option String)
              → file_at n dir ≡ o
              → Checks line name × (contains name seen ≡ false)
          by_file none f = ground arith
          by_file (some text) f = (
            record {
              digest = digest;
              text = text;
              read = ground arith;
              present = ground arith;
              same = ground arith;
            },
            ground arith,
          )

  check_lines-CheckLines :
      (seen lines : List String) {expected : List String}
      → check_lines lib dir seen lines ≡ ok expected
      → CheckLines seen lines expected
  unfolding check_lines
  check_lines-CheckLines seen [] h = ground arith
  check_lines-CheckLines seen (line ∷ lines) h =
      let (name, checked, rest) = chain-eq-ok _ _ h in
      let (checks, fresh) = check_line-Checks seen line name checked in
      (name, checks, fresh, check_lines-CheckLines (name ∷ seen) lines rest)

  -- The file can be read and is JSON.
  abbrev pub IsJson : String → Type 0
  IsJson name = (value : Json) × (load lib dir name ≡ ok value)

  load_all-IsJson :
      (names : List String) {u : Unit {0}} → load_all lib dir names ≡ ok u → All IsJson names
  unfolding load_all
  load_all-IsJson [] h = tt
  load_all-IsJson (name ∷ names) h =
      let (value, loaded, rest) = chain-eq-ok _ _ h in ((value, loaded), load_all-IsJson names rest)

  check_manifest-known :
      (value : Json) (manifest : Dict Json)
      → check_manifest lib value ≡ ok manifest
      → lookup "schema_version" manifest ≡ some (Json.str "1.0")
  check_manifest-known value manifest h = ground arith

  pub record Verified (manifest : Dict Json) : Type 0 where
    pub checksums : String
    pub expected : List String
    pub found : file_at checksum_name dir ≡ some checksums
    pub checked : CheckLines [] (split_lines checksums) expected
    pub required : all (λ name. contains name expected) json_files ≡ true
    pub complete : all (is_checked lib expected) dir ≡ true
    pub readable : All IsJson json_files
    pub known : lookup "schema_version" manifest ≡ some (Json.str "1.0")

  -- A directory that is verified has its checksums; each of their lines stands for a different file of
  -- it, with the digest that the file has; every required file is among them and is JSON; nothing but
  -- these files and the checksums is in it; and its manifest has the version that the program knows.
  pub verify_snapshot-Verified :
      (manifest : Dict Json) → verify_snapshot lib dir ≡ ok manifest → Verified manifest
  unfolding verify_snapshot
  verify_snapshot-Verified manifest h =
      let (checksums, found, h1) =
        chain-eq-ok (checksum_text lib (file_at checksum_name dir)) _ h in
      let (expected, lines, h2) =
        chain-eq-ok (check_lines lib dir [] (split_lines checksums)) _ h1 in
      let (_, required, h3) = chain-eq-ok (check_required lib expected) _ h2 in
      let (_, complete, h4) = chain-eq-ok (check_entries lib expected dir) _ h3 in
      let (_, loaded, h5) = chain-eq-ok (load_all lib dir json_files) _ h4 in
      let (value, read, known) = chain-eq-ok (load lib dir "manifest.json") _ h5 in
      record {
        checksums = checksums;
        expected = expected;
        found = ground arith;
        checked = check_lines-CheckLines [] (split_lines checksums) lines;
        required = ground arith;
        complete = ground arith;
        readable = load_all-IsJson json_files loaded;
        known = check_manifest-known value manifest known;
      }
