-- ===== src/Tests/Planning.antt =====
-- The theorems on plans at a plan of two tasks.
use mathlib.Core.List.{Perm}
use legal_ai_copilot.Prelude.{
  zero, suc, none, some, List, [], ◌∷◌, ◌≡◌, true, All, map, if◌then◌else◌,
}
use legal_ai_copilot.Planner.{
  TaskDef, TaskState, results, raised, Dispatch, start, run_task, execute_plan,
}
use legal_ai_copilot.Planner.Finished.{
  is_finished, first_answer, three_attempts, has_some, run_task-states,
}
use legal_ai_copilot.Planner.Order.{IsOrdered, asked, asked_of, execute_plan-order}

abbrev search_task : TaskDef
search_task = record {
  task_id = some 7;
  tool = "hybrid_search";
  search_target = "indemnity";
  reason = "Find the cap";
  priority = 3;
}

abbrev graph_task : TaskDef
graph_task = record search_task { task_id = none; tool = "graph_search"; priority = 1 }

abbrev plan : List TaskDef
plan = search_task ∷ graph_task ∷ []

-- every tool fails twice and then has four results
abbrev flaky : Dispatch
flaky r zero = raised "timeout"
flaky r (suc zero) = raised "timeout"
flaky r (suc (suc attempt)) = results 4

run_task-states_example : (run_task flaky (start search_task 0)).state ≡ (
    if has_some (first_answer (three_attempts flaky (start search_task 0)))
    then TaskState.complete
    else TaskState.escalated)
run_task-states_example = run_task-states flaky (start search_task 0)

execute_plan-order_example :
    let log = execute_plan flaky plan in
    IsOrdered (map (λ r. r.priority) log)
    × ((sorted : List TaskDef) × Perm plan sorted × (map asked_of log ≡ map asked sorted))
    × All (λ r. is_finished r ≡ true) log
execute_plan-order_example = execute_plan-order flaky plan
