-- ===== src/Observer/Snapshot.antt =====
-- tv_observer/snapshot.py: snapshots as directories of files, and their verification. SHA-256 and the
-- JSON library are parameters. The directory that `create_snapshot` fills before it moves it into place
-- is a value of its own, seen by nobody else.
pub mod Writing
pub mod Verified
pub mod Created
use Prim.Native.Char.{Char, code}
use tv_safety_cleaner.Prelude.{
  ℕ, ◌<>◌, String, Bool, true, false, Option, none, some, List, [], ◌∷◌, ◌++◌, map, not, ◌&&◌, ◌||◌,
  ◌==◌, nat_eq, string_eq, if◌then◌else◌, is_empty, codes, all, any, ltb, contains, select, sort,
  le_text, split_lines, is_word, length, starts_with,
}
use tv_safety_cleaner.Prelude.Dict.{Dict, lookup, insert}
use tv_safety_cleaner.Prelude.Json.{
  Json, null, bool, num, str, arr, obj, fields, array, object, no_items,
}
use tv_safety_cleaner.Exec.{Exec, Result, ok, err, Error, other, value_error, chain, refuse_if}
use tv_safety_cleaner.Observer.Collector.{SnapshotPayload, Package}

-- A regular file with its text, or anything else: a directory, a symbolic link.
pub data Entry : Type 0 where
  file : String → Entry
  odd : Entry

abbrev pub Directory : Type 0
Directory = Dict Entry

pub record FileLib : Type 0 where
  pub digest : String → String
  pub dumps : Json → String
  pub loads : String → Result Json

-- `raise SnapshotError(…)`
abbrev pub invalid : {A : Type 0} → String → Result A
invalid text = err (other text)

abbrev pub checksum_name : String
checksum_name = "checksums.sha256"

abbrev pub json_files : List String
json_files =
    "manifest.json" ∷ "device.json" ∷ "firmware.json" ∷ "packages.json" ∷ "disabled-packages.json"
    ∷ "permissions.json" ∷ "components.json" ∷ "launcher.json" ∷ "settings.json" ∷ "processes.json"
    ∷ "memory.json" ∷ "storage.json" ∷ "network-summary.json" ∷ "restore-plan.json"
    ∷ "privacy-report.json" ∷ []

-- The text of a regular file.
unfoldable pub file_at : String → Directory → Option String
unfolding lookup
file_at name dir = elim (lookup name dir) [
  | none ↦ none
  | some e ↦ elim e [ file text ↦ some text | odd ↦ none ]
]

abbrev cons_left : Char → Option (String × String) → Option (String × String)
cons_left c none = none
cons_left c (some (left, right)) = some (String.◌∷◌ c left, right)

abbrev after_space : String → Option String
after_space String.[] = none
after_space (String.◌∷◌ c s) = if code c == b' ' then some s else none

-- `line.split("  ", 1)`, where there are two parts.
unfoldable pub split_line : String → Option (String × String)
split_line String.[] = none
split_line (String.◌∷◌ c s) =
    let later = cons_left c (split_line s) in
    if not (code c == b' ')
    then later
    else elim (after_space s) [ none ↦ later | some right ↦ some ("", right) ]

-- `Path(name).name == name`
abbrev pub is_plain_name : String → Bool
is_plain_name name = not (any (λ c. c == b'/') (codes name)) && not (name == ".")

module _ (lib : FileLib) where
  -- One line of the checksums, after the names `seen`.
  unfoldable pub check_line : Directory → List String → String → Result String
  unfolding file_at split_line
  check_line dir seen line = elim (split_line line) [
    | none ↦ invalid "malformed checksum line"
    | some (expected, name) ↦
        if not (is_plain_name name) || contains name seen
        then invalid "unsafe or duplicate checksum path"
        else elim (file_at name dir) [
          | none ↦ invalid ("checksum mismatch: " <> name)
          | some text ↦
              if lib.digest text == expected
              then ok name
              else invalid ("checksum mismatch: " <> name)
        ]
  ]

  -- The loop over the lines gives the names that they check.
  unfoldable pub check_lines : Directory → List String → List String → Result (List String)
  unfolding check_line
  check_lines dir seen [] = ok seen
  check_lines dir seen (line ∷ lines) =
      chain (check_line dir seen line) λ name. check_lines dir (name ∷ seen) lines

  abbrev pub check_required : List String → Result (Unit {0})
  check_required expected =
      refuse_if (not (all (λ name. contains name expected) json_files))
        (other "missing required artifacts")

  abbrev pub is_checked : List String → String × Entry → Bool
  is_checked expected (name, odd) = false
  is_checked expected (name, file _) = contains name expected || name == checksum_name

  abbrev pub check_entries : List String → Directory → Result (Unit {0})
  check_entries expected dir =
      refuse_if (not (all (is_checked expected) dir))
        (other "unsupported or unchecked snapshot entry")

  -- `json.loads((directory / name).read_text())`
  unfoldable pub load : Directory → String → Result Json
  unfolding file_at
  load dir name = elim (file_at name dir) [
    | none ↦ err (Error.os_error "No such file or directory")
    | some text ↦ lib.loads text
  ]

  unfoldable pub load_all : Directory → List String → Result (Unit {0})
  unfolding load
  load_all dir [] = ok tt
  load_all dir (name ∷ names) = chain (load dir name) λ value. load_all dir names

  -- The manifest, of the version that this program knows.
  abbrev pub check_manifest : Json → Result (Dict Json)
  check_manifest (obj entries) = elim (lookup "schema_version" (fields entries)) [
    | none ↦ invalid "unsupported snapshot schema"
    | some version ↦ elim version [
      | str text ↦
          if text == "1.0" then ok (fields entries) else invalid "unsupported snapshot schema"
      | _ ↦ invalid "unsupported snapshot schema"
    ]
  ]
  check_manifest _ = invalid "snapshot manifest must be a JSON object"

  abbrev pub checksum_text : Option String → Result String
  checksum_text none = invalid "missing checksums.sha256"
  checksum_text (some text) =
      if all (λ c. ltb c 128) (codes text)
      then ok text
      else err (value_error "'ascii' codec can't decode byte")

  -- `verify_snapshot`, of a real directory.
  unfoldable pub verify_snapshot : Directory → Result (Dict Json)
  unfolding check_lines load_all lookup split_lines
  verify_snapshot dir = chain (checksum_text (file_at checksum_name dir)) λ text.
      chain (check_lines dir [] (split_lines text)) λ expected. chain (check_required expected) λ _.
        chain (check_entries expected dir)
          λ _. chain (load_all dir json_files) λ _. chain (load dir "manifest.json") check_manifest
