-- ===== src/Planner/Executor.antt =====
-- due_diligence/planner/executor.py: `StateMachineExecutor`. What the tools answer is a parameter:
-- for each task and each attempt, the number of results or the text of an exception.
use legal_ai_copilot.Prelude.{
  ℕ, zero, suc, ◌+◌, String, Bool, true, false, Option, none, some, List, [], ◌∷◌, leb, ◌==◌,
  if◌then◌else◌,
}
use legal_ai_copilot.Prelude.Table.{select}

pub data TaskState : Type 0 where
  pending running complete escalated : TaskState

-- a task of the plan, with the defaults of `execute_plan` filled in, but for the id
pub record TaskDef : Type 0 where
  pub task_id : Option ℕ
  pub tool : String
  pub search_target : String
  pub reason : String
  pub priority : ℕ

pub record TaskRecord : Type 0 where
  pub task_id : ℕ
  pub tool : String
  pub search_target : String
  pub reason : String
  pub priority : ℕ
  pub state : TaskState
  pub result : Option ℕ
  pub error : Option String

-- `_dispatch`: a result with its number of entries, or an exception
pub data Attempt : Type 0 where
  results : ℕ → Attempt
  raised : String → Attempt

abbrev pub Dispatch : Type 0
Dispatch = TaskRecord → ℕ → Attempt

abbrev pub max_retries : ℕ
max_retries = 2

-- `sorted(tasks, key=priority)`, which is stable
unfoldable pub insert_task : TaskDef → List TaskDef → List TaskDef
insert_task t [] = t ∷ []
insert_task t (x ∷ xs) =
    let rest = insert_task t xs in if leb t.priority x.priority then t ∷ x ∷ xs else x ∷ rest

unfoldable pub sort_tasks : List TaskDef → List TaskDef
unfolding insert_task
sort_tasks [] = []
sort_tasks (t ∷ tasks) = insert_task t (sort_tasks tasks)

abbrev pub default_id : Option ℕ → ℕ → ℕ
default_id none k = k
default_id (some id) k = id

-- the record that `execute_plan` appends to the log, in state RUNNING
unfoldable pub start : TaskDef → ℕ → TaskRecord
start t logged = record {
  task_id = default_id t.task_id (logged + 1);
  tool = t.tool;
  search_target = t.search_target;
  reason = t.reason;
  priority = t.priority;
  state = TaskState.running;
  result = none;
  error = none;
}

-- a result that is not empty completes the task, an empty one escalates it
unfoldable pub settle : TaskRecord → ℕ → TaskRecord
settle r count =
    if count == 0
    then record r {
      state = TaskState.escalated;
      result = some 0;
      error = some "No results returned — insufficient coverage.";
    }
    else record r { state = TaskState.complete; result = some count }

abbrev pub give_up : TaskRecord → String → TaskRecord
give_up r e = record r { state = TaskState.escalated; error = some e }

-- the retry loop from attempt `attempt` on, with `left` retries left
unfoldable pub attempts : Dispatch → TaskRecord → ℕ → ℕ → TaskRecord
unfolding settle
attempts dispatch r attempt zero = elim (dispatch r attempt) [
  | results count ↦ settle r count
  | raised e ↦ give_up r e
]
attempts dispatch r attempt (suc left) =
    let later = attempts dispatch r (attempt + 1) left in
    elim (dispatch r attempt) [ results count ↦ settle r count | raised e ↦ later ]

unfoldable pub run_task : Dispatch → TaskRecord → TaskRecord
unfolding attempts
run_task dispatch r = attempts dispatch r 0 max_retries

-- the loop over the sorted tasks, after `logged` records
unfoldable pub run_tasks : Dispatch → ℕ → List TaskDef → List TaskRecord
unfolding start run_task
run_tasks dispatch logged [] = []
run_tasks dispatch logged (t ∷ tasks) =
    run_task dispatch (start t logged) ∷ run_tasks dispatch (logged + 1) tasks

unfoldable pub execute_plan : Dispatch → List TaskDef → List TaskRecord
unfolding sort_tasks run_tasks
execute_plan dispatch tasks = run_tasks dispatch 0 (sort_tasks tasks)

abbrev pub is_complete : TaskState → Bool
is_complete TaskState.complete = true
is_complete _ = false

abbrev pub is_escalated : TaskState → Bool
is_escalated TaskState.escalated = true
is_escalated _ = false

abbrev pub Results : Type 0
Results = List (ℕ × Option ℕ)

-- `d[key] = value` on a dict in insertion order
unfoldable pub put_result : ℕ → Option ℕ → Results → Results
put_result key value [] = (key, value) ∷ []
put_result key value ((k, v) ∷ rest) =
    let later = put_result key value rest in
    if k == key then (key, value) ∷ rest else (k, v) ∷ later

unfoldable pub results_from : Results → List TaskRecord → Results
unfolding put_result
results_from d [] = d
results_from d (r ∷ log) = results_from (put_result r.task_id r.result d) log

-- the results of the complete tasks by id
unfoldable pub get_all_results : List TaskRecord → Results
unfolding results_from
get_all_results log = results_from [] (select (λ r. is_complete r.state) log)

unfoldable pub get_escalated_tasks : List TaskRecord → List TaskRecord
get_escalated_tasks = select (λ r. is_escalated r.state)
