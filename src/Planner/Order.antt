-- ===== src/Planner/Order.antt =====
-- The order in which a plan is executed.
use mathlib.Core.List.{Perm}
use mathlib.Core.List.Perm
use legal_ai_copilot.Prelude.{
  ℕ, ◌+◌, ◌≤◌, List, [], ◌∷◌, ◌≡◌, refl, arith, All, Bool-cases, inl, inr, leb, map, String, true,
}
use legal_ai_copilot.Planner.Finished.{is_finished, run_task-finished}
use legal_ai_copilot.Planner.Executor.{
  TaskDef, TaskRecord, Dispatch, insert_task, sort_tasks, start, attempts, settle, run_task,
  run_tasks, execute_plan,
}

-- no task comes after one of a larger number
abbrev pub IsOrdered : List ℕ → Type 0
IsOrdered [] = Unit
IsOrdered (p ∷ ps) = All (λ q. p ≤ q) ps × IsOrdered ps

abbrev pub priorities : List TaskDef → List ℕ
priorities = map (λ t. t.priority)

All-weaken : (p q : ℕ) (ps : List ℕ) → p ≤ q → All (λ r. q ≤ r) ps → All (λ r. p ≤ r) ps
All-weaken p q [] le h = h
All-weaken p q (r ∷ ps) le h = (omega (arith, le, h.0), All-weaken p q ps le h.1)

All-insert :
    (p : ℕ) (t : TaskDef) (tasks : List TaskDef)
    → p ≤ t.priority
    → All (λ q. p ≤ q) (priorities tasks)
    → All (λ q. p ≤ q) (priorities (insert_task t tasks))
unfolding insert_task
All-insert p t [] le h = (le, tt)
All-insert p t (x ∷ xs) le h = ground (arith, All-insert p t xs le)

insert-IsOrdered :
    (t : TaskDef) (tasks : List TaskDef)
    → IsOrdered (priorities tasks)
    → IsOrdered (priorities (insert_task t tasks))
unfolding insert_task
insert-IsOrdered t [] h = (tt, tt)
insert-IsOrdered t (x ∷ xs) h = elim (Bool-cases (leb t.priority x.priority)) [
  | inl first ↦
      rw first
        ((ground arith, All-weaken t.priority x.priority (priorities xs) (ground arith) h.0), h)
  | inr later ↦ rw later (All-insert x.priority t xs (ground arith) h.0, insert-IsOrdered t xs h.1)
]

sort-IsOrdered : (tasks : List TaskDef) → IsOrdered (priorities (sort_tasks tasks))
unfolding sort_tasks
sort-IsOrdered [] = tt
sort-IsOrdered (t ∷ tasks) = insert-IsOrdered t (sort_tasks tasks) (sort-IsOrdered tasks)

insert-Perm : (t : TaskDef) (tasks : List TaskDef) → Perm (t ∷ tasks) (insert_task t tasks)
unfolding insert_task
insert-Perm t [] = Perm.refl (t ∷ [])
insert-Perm t (x ∷ xs) = elim (Bool-cases (leb t.priority x.priority)) [
  | inl first ↦ rw first (Perm.refl (t ∷ x ∷ xs))
  | inr later ↦ rw later (Perm.trans (Perm.swap x t xs) (Perm.cons x (insert-Perm t xs)))
]

sort-Perm : (tasks : List TaskDef) → Perm tasks (sort_tasks tasks)
unfolding sort_tasks
sort-Perm [] = Perm.refl []
sort-Perm (t ∷ tasks) =
    Perm.trans (Perm.cons t (sort-Perm tasks)) (insert-Perm t (sort_tasks tasks))

attempts-priority :
    (dispatch : Dispatch) (r : TaskRecord) → (run_task dispatch r).priority ≡ r.priority
unfolding run_task attempts settle
attempts-priority dispatch r = ground arith

run_tasks-priorities :
    (dispatch : Dispatch) (logged : ℕ) (tasks : List TaskDef)
    → map (λ r. r.priority) (run_tasks dispatch logged tasks) ≡ priorities tasks
unfolding run_tasks start
run_tasks-priorities dispatch logged [] = refl
run_tasks-priorities dispatch logged (t ∷ tasks) =
    cc (
      attempts-priority dispatch (start t logged),
      run_tasks-priorities dispatch (logged + 1) tasks,
    )

-- what a task asks for
abbrev pub asked : TaskDef → String × String × String × ℕ
asked t = (t.tool, t.search_target, t.reason, t.priority)

abbrev pub asked_of : TaskRecord → String × String × String × ℕ
asked_of r = (r.tool, r.search_target, r.reason, r.priority)

run_task-asked :
    (dispatch : Dispatch) (r : TaskRecord) → asked_of (run_task dispatch r) ≡ asked_of r
unfolding run_task attempts settle
run_task-asked dispatch r = ground arith

run_tasks-asked :
    (dispatch : Dispatch) (logged : ℕ) (tasks : List TaskDef)
    → map asked_of (run_tasks dispatch logged tasks) ≡ map asked tasks
unfolding run_tasks start
run_tasks-asked dispatch logged [] = refl
run_tasks-asked dispatch logged (t ∷ tasks) =
    cc (run_task-asked dispatch (start t logged), run_tasks-asked dispatch (logged + 1) tasks)

run_tasks-finished :
    (dispatch : Dispatch) (logged : ℕ) (tasks : List TaskDef)
    → All (λ r. is_finished r ≡ true) (run_tasks dispatch logged tasks)
unfolding run_tasks
run_tasks-finished dispatch logged [] = tt
run_tasks-finished dispatch logged (t ∷ tasks) =
    (run_task-finished dispatch (start t logged), run_tasks-finished dispatch (logged + 1) tasks)

-- A plan is executed in the order of the priorities, the smallest number first. The log has one
-- record for each task of the plan, with its tool, target, reason and priority, in some order: none
-- is lost or run twice. Every task has ended, complete or escalated.
pub execute_plan-order :
    (dispatch : Dispatch) (tasks : List TaskDef)
    → let log = execute_plan dispatch tasks in
      IsOrdered (map (λ r. r.priority) log)
      × ((sorted : List TaskDef) × Perm tasks sorted × (map asked_of log ≡ map asked sorted))
      × All (λ r. is_finished r ≡ true) log
unfolding execute_plan
execute_plan-order dispatch tasks = (
  rw (run_tasks-priorities dispatch 0 (sort_tasks tasks)) (sort-IsOrdered tasks),
  (sort_tasks tasks, sort-Perm tasks, run_tasks-asked dispatch 0 (sort_tasks tasks)),
  run_tasks-finished dispatch 0 (sort_tasks tasks),
)
