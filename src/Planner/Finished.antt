-- ===== src/Planner/Finished.antt =====
-- How each task of a plan ends.
use legal_ai_copilot.Prelude.{
  ℕ, zero, suc, ◌+◌, Bool, true, false, ◌||◌, Option, none, some, List, [], ◌∷◌, ◌≡◌, refl, arith,
  length, if◌then◌else◌,
}
use legal_ai_copilot.Prelude.Table.{select}
use legal_ai_copilot.Planner.Executor.{
  TaskDef, TaskRecord, TaskState, Attempt, results, raised, Dispatch, settle, attempts, run_task,
  start, run_tasks, sort_tasks, insert_task, is_complete, is_escalated, get_escalated_tasks,
}

-- the first attempt that does not raise, with the number of its results
unfoldable pub first_answer : List Attempt → Option ℕ
first_answer [] = none
first_answer (results count ∷ rest) = some count
first_answer (raised e ∷ rest) = first_answer rest

abbrev pub three_attempts : Dispatch → TaskRecord → List Attempt
three_attempts dispatch r = dispatch r 0 ∷ dispatch r 1 ∷ dispatch r 2 ∷ []

-- some results
abbrev pub has_some : Option ℕ → Bool
has_some none = false
has_some (some zero) = false
has_some (some (suc n)) = true

-- A task is complete exactly if the first of its three attempts that does not raise has results,
-- and it is escalated exactly if that attempt has none or all three raise.
pub run_task-states :
    (dispatch : Dispatch) (r : TaskRecord)
    → ((run_task dispatch r).state ≡ (
        if has_some (first_answer (three_attempts dispatch r))
        then TaskState.complete
        else TaskState.escalated))
unfolding run_task attempts settle first_answer
run_task-states dispatch r = ground arith

abbrev pub is_finished : TaskRecord → Bool
is_finished r = is_complete r.state || is_escalated r.state

pub run_task-finished :
    (dispatch : Dispatch) (r : TaskRecord) → is_finished (run_task dispatch r) ≡ true
run_task-finished dispatch r = rw (run_task-states dispatch r) (ground arith)

run_tasks-counts :
    (dispatch : Dispatch) (logged : ℕ) (tasks : List TaskDef)
    → let log = run_tasks dispatch logged tasks in
      length (select (λ r. is_complete r.state) log) + length (get_escalated_tasks log)
      ≡ length tasks
unfolding run_tasks get_escalated_tasks select
run_tasks-counts dispatch logged [] = refl
run_tasks-counts dispatch logged (t ∷ tasks) = ground (
  arith,
  run_task-finished dispatch (start t logged),
  run_tasks-counts dispatch (logged + 1) tasks,
)

length-insert :
    (t : TaskDef) (tasks : List TaskDef) → length (insert_task t tasks) ≡ length tasks + 1
unfolding insert_task
length-insert t [] = refl
length-insert t (x ∷ xs) = ground (arith, length-insert t xs)

length-sort : (tasks : List TaskDef) → length (sort_tasks tasks) ≡ length tasks
unfolding sort_tasks
length-sort [] = refl
length-sort (t ∷ tasks) = omega (arith, length-insert t (sort_tasks tasks), length-sort tasks)
