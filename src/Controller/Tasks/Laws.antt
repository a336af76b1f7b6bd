-- ===== src/Controller/Tasks/Laws.antt =====
-- What the task store keeps and what it forgets.
use tv_safety_cleaner.Prelude.{
  ℕ, suc, ◌≡◌, ◌⊎◌, inl, inr, refl, ap, String, Option, none, some, true, [], ◌∷◌, ◌==◌, string_eq,
  if◌then◌else◌, arith, Bool-cases, String_discrete,
}
use tv_safety_cleaner.Prelude.Dict
use tv_safety_cleaner.Prelude.Dict.{Dict, lookup, insert, lookup-insert, lookup-update_ne}
use tv_safety_cleaner.Prelude.Json.{Json, str}
use tv_safety_cleaner.Exec.{ok}
use tv_safety_cleaner.Controller.Tasks.{
  Task, Tasks, read, write, update, stamped, clear_finished, is_finished, is_one_of, stage_in,
}

-- After an update, a read of the task gives every changed field, keeps every other field but the
-- stamps, and no other task has changed.
pub read-update :
    (now : ℕ) (i k : String) (changes : Dict Json) (tasks : Tasks) (task : Task)
    → read i tasks ≡ ok task
    → read k (update now i changes tasks).1
      ≡ (if i == k then ok (stamped now i (Dict.update changes task)) else read k tasks)
unfolding update read write
read-update now i k changes tasks task h =
    ground (arith, lookup-insert i k (stamped now i (Dict.update changes task)) tasks)

-- The stage that the task's file holds.
abbrev pub HasStage : String → Task → Type 0
HasStage stage task = lookup "stage" task ≡ some (str stage)

-- A task that is over.
abbrev pub IsOver : Task → Type 0
IsOver task = HasStage "done" task ⊎ HasStage "failed" task ⊎ HasStage "result" task

-- What is left of a table when `removed` tasks that were over have gone, and no other.
pub data Cleared : (before after : Tasks) (removed : ℕ) → Type 0 where
  nothing_left : Cleared [] [] 0
  gone :
      {i : String} {task : Task} {before after : Tasks} {removed : ℕ}
      → IsOver task
      → Cleared before after removed
      → Cleared ((i, task) ∷ before) after (suc removed)
  kept :
      {i : String} {task : Task} {before after : Tasks} {removed : ℕ}
      → ¬ IsOver task
      → Cleared before after removed
      → Cleared ((i, task) ∷ before) ((i, task) ∷ after) removed

stage-IsOver :
    (value : Option Json)
    → is_one_of ("done" ∷ "failed" ∷ "result" ∷ []) value ≡ true
    → (value ≡ some (str "done")) ⊎ (value ≡ some (str "failed")) ⊎ (value ≡ some (str "result"))
stage-IsOver none h = cc
stage-IsOver (some (str t)) h = elim (String_discrete t "done") [
  | yes e ↦ inl (ap (λ x. some (str x)) e)
  | no a ↦ elim (String_discrete t "failed") [
    | yes e ↦ inr (inl (ap (λ x. some (str x)) e))
    | no b ↦ inr (inr (ap (λ x. some (str x)) (ground arith)))
  ]
]
stage-IsOver (some _) h = cc

IsOver-stage : (task : Task) → IsOver task → is_finished task ≡ true
unfolding stage_in String_discrete
IsOver-stage task (inl h) = rw h refl
IsOver-stage task (inr (inl h)) = rw h refl
IsOver-stage task (inr (inr h)) = rw h refl

-- `clear_finished` removes every task whose stage is `done`, `failed` or `result` and no other, keeps
-- the rest in its order, and counts the ones that it removes.
pub clear_finished_lem :
    (tasks : Tasks) → Cleared tasks (clear_finished tasks).1 (clear_finished tasks).0
unfolding clear_finished
clear_finished_lem [] = nothing_left
clear_finished_lem ((i, task) ∷ tasks) = elim (Bool-cases (is_finished task)) [
  | inl e ↦
      rw e
        (gone (unfold stage_in in stage-IsOver (lookup "stage" task) e) (clear_finished_lem tasks))
  | inr e ↦
      rw e (kept (λ over. ground (arith, IsOver-stage task over, e)) (clear_finished_lem tasks))
]
