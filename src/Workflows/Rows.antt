-- ===== src/Workflows/Rows.antt =====
-- The row of one workflow, read after the writes of app/services/agent/nodes.py and app/tasks.py.
use legal_ai_copilot.Prelude.{ℕ, String, ◌≡◌, refl, Option, some, List, ◌==◌}
use legal_ai_copilot.Prelude.Table.{select_one, update_where, map_row, select_one-update_where}
use legal_ai_copilot.Models.{Workflow, WorkflowStatus, Brief}

abbrev pub row : ℕ → List Workflow → Option Workflow
row k = select_one (λ w. w.id == k)

abbrev pub update_row : ℕ → (Workflow → Workflow) → List Workflow → List Workflow
update_row k = update_where (λ w. w.id == k)

abbrev pub with_status : WorkflowStatus → Workflow → Workflow
with_status s w = record w { status = s }

abbrev pub with_brief : Brief → Workflow → Workflow
with_brief b w = record w {
  decision_brief_payload = some b;
  status = WorkflowStatus.awaiting_brief_confirmation;
}

abbrev pub with_error : String → Workflow → Workflow
with_error t w = record w { status = WorkflowStatus.failed; error_context = some t }

abbrev pub with_result : String → ℕ → Workflow → Workflow
with_result key now w = record w {
  status = WorkflowStatus.completed;
  completed_at = some now;
  result_ref = some key;
}

module _ (k : ℕ) (rows : List Workflow) where
  pub row-status :
      (s : WorkflowStatus)
      → row k (update_row k (with_status s) rows) ≡ map_row (with_status s) (row k rows)
  row-status s = select_one-update_where (λ w. w.id) k (with_status s) rows (λ w. refl)

  pub row-brief :
      (b : Brief) → row k (update_row k (with_brief b) rows) ≡ map_row (with_brief b) (row k rows)
  row-brief b = select_one-update_where (λ w. w.id) k (with_brief b) rows (λ w. refl)

  pub row-error :
      (t : String) → row k (update_row k (with_error t) rows) ≡ map_row (with_error t) (row k rows)
  row-error t = select_one-update_where (λ w. w.id) k (with_error t) rows (λ w. refl)

  pub row-result :
      (key : String) (now : ℕ)
      → row k (update_row k (with_result key now) rows) ≡ map_row (with_result key now) (row k rows)
  row-result key now = select_one-update_where (λ w. w.id) k (with_result key now) rows (λ w. refl)

pub ruleset row_laws = (row-status, row-brief, row-error, row-result)
