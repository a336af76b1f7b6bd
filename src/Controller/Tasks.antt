-- ===== src/Controller/Tasks.antt =====
-- `TaskStore` of tv_controller/apk_manager.py: one JSON object for each task, under the task's id.
-- The clock's reading and the id that `secrets` makes up are arguments; files of the folder that
-- hold no JSON are left out.
pub mod Laws
use tv_safety_cleaner.Prelude.{
  ℕ, ◌-◌, String, Bool, true, false, Option, none, some, List, [], ◌∷◌, not, ◌&&◌, ◌||◌, ◌==◌,
  nat_eq, string_eq, if◌then◌else◌, codes, is_digit, leb, ltb, length, sort,
}
use tv_safety_cleaner.Prelude.Dict
use tv_safety_cleaner.Prelude.Dict.{Dict, lookup, insert}
use tv_safety_cleaner.Prelude.Json.{Json, num, str}
use tv_safety_cleaner.Exec.{Exec, Result, ok, err, refusal, os_error, chain}
use tv_safety_cleaner.Controller.Names.{UrlLib, parse_package_input}

abbrev pub Task : Type 0
Task = Dict Json

abbrev pub Tasks : Type 0
Tasks = Dict Task

abbrev pub failed_task_ttl : ℕ
failed_task_ttl = 300

-- [a-f0-9]
abbrev is_hex : ℕ → Bool
is_hex c = is_digit c || (leb b'a' c && leb c b'f')

abbrev all_hex : List ℕ → Bool
all_hex [] = true
all_hex (c ∷ s) = is_hex c && all_hex s

-- [0-9]+-[a-f0-9]{8}, from a place where `some_digit` tells whether a digit has been passed.
unfoldable pub matches_task_id : Bool → List ℕ → Bool
matches_task_id some_digit [] = false
matches_task_id some_digit (c ∷ s) =
    let rest = matches_task_id true s in
    if is_digit c then rest else (c == b'-' && some_digit) && (length s == 8 && all_hex s)

unfoldable pub is_task_id : String → Bool
unfolding matches_task_id
is_task_id s = matches_task_id false (codes s)

abbrev found : Option Task → Result Task
found none = err (os_error "No such file or directory")
found (some task) = ok task

unfoldable pub read : String → Tasks → Result Task
unfolding lookup
read i tasks =
    if not (is_task_id i) then err (refusal "Invalid task ID") else found (lookup i tasks)

-- The object that `write` stores: `value["id"] = task_id; value["updated_at"] = self.clock()`.
abbrev pub stamped : ℕ → String → Task → Task
stamped now i task = insert "updated_at" (num now) (insert "id" (str i) task)

unfoldable pub write : ℕ → String → Task → Tasks → Tasks
unfolding insert
write now i task tasks = insert i (stamped now i task) tasks

abbrev pub queued : ℕ → String → String → String → Task
queued now i kind p =
    ("id", str i)
    ∷ ("kind", str kind)
    ∷ ("package", str p)
    ∷ ("stage", str "queued")
    ∷ ("status", str "Queued")
    ∷ ("progress", num 0)
    ∷ ("created_at", num now)
    ∷ ("updated_at", num now)
    ∷ []

unfoldable pub new : UrlLib → ℕ → String → String → String → Exec Tasks String
unfolding write
new lib now i p kind tasks = elim (parse_package_input lib p) [
  | err e ↦ (err e, tasks)
  | ok name ↦ (ok i, write now i (queued now i kind name) tasks)
]

unfoldable pub update : ℕ → String → Dict Json → Exec Tasks Task
unfolding read write Dict.update
update now i changes tasks = elim (read i tasks) [
  | err e ↦ (err e, tasks)
  | ok task ↦ (ok (Dict.update changes task), write now i (Dict.update changes task) tasks)
]

-- `data.get(key) in names`
abbrev pub is_one_of : List String → Option Json → Bool
is_one_of [] value = false
is_one_of (s ∷ names) (some (str t)) = t == s || is_one_of names (some (str t))
is_one_of (s ∷ names) _ = false

unfoldable pub stage_in : List String → Task → Bool
unfolding lookup
stage_in names task = is_one_of names (lookup "stage" task)

-- `float(data.get(key, 0))` of a number.
abbrev number_or_zero : Option Json → ℕ
number_or_zero (some (num n)) = n
number_or_zero _ = 0

unfoldable pub number_at : String → Task → ℕ
unfolding lookup
number_at key task = number_or_zero (lookup key task)

-- `now - updated > FAILED_TASK_TTL`
unfoldable pub is_listed : ℕ → Task → Bool
unfolding stage_in number_at
is_listed now task =
    not (stage_in ("done" ∷ []) task)
    && not (
        stage_in ("failed" ∷ "result" ∷ []) task
        && ltb failed_task_ttl (now - number_at "updated_at" task))

unfoldable pub listed : ℕ → Tasks → List Task
listed now [] = []
listed now ((_, task) ∷ tasks) =
    let rest = listed now tasks in if is_listed now task then task ∷ rest else rest

-- Newest first: `sorted(…, key=created_at, reverse=True)`.
unfoldable pub active : ℕ → Tasks → List Task
unfolding listed is_listed sort
active now tasks =
    sort (λ a b. leb (number_at "created_at" b) (number_at "created_at" a)) (listed now tasks)

abbrev pub is_finished : Task → Bool
is_finished task = stage_in ("done" ∷ "failed" ∷ "result" ∷ []) task

-- The files that are left, and how many were removed.
unfoldable pub clear_finished : Tasks → ℕ × Tasks
unfolding stage_in
clear_finished [] = (0, [])
clear_finished ((i, task) ∷ tasks) =
    let (removed, rest) = clear_finished tasks in
    if is_finished task then (ℕ.suc removed, rest) else (removed, (i, task) ∷ rest)
