-- ===== src/Workflows.antt =====
-- The queries on workflows and actions that app/routers/approvals.py, app/routers/action_agent.py
-- and app/services/agent/nodes.py share.
pub mod Rows
use Prim.Native.Nat.{max}
use legal_ai_copilot.Prelude.{ℕ, ◌+◌, ◌&&◌, List, [], ◌∷◌, ◌==◌, if◌then◌else◌}
use legal_ai_copilot.Prelude.Table.{select_one, update_where}
use legal_ai_copilot.Models.{Workflow, Action, WorkflowStatus}
use legal_ai_copilot.Database.{Db}
use legal_ai_copilot.Http.{Handler, gets, or_raise, ◌>>=◌}

unfoldable pub get_workflow_for_org : ℕ → ℕ → Handler Workflow
get_workflow_for_org workflow_id org_id =
    gets (λ d. select_one (λ w. w.id == workflow_id && w.org_id == org_id) d.workflows) >>= λ found.
    or_raise found 404

-- `scalar_one_or_none() or 0` over the largest revision count of the workflow's actions
unfoldable pub current_revision : ℕ → List Action → ℕ
current_revision workflow_id [] = 0
current_revision workflow_id (a ∷ rows) =
    let rest = current_revision workflow_id rows in
    if a.workflow_id == workflow_id then max a.revision_count rest else rest

abbrev pub set_workflow_status : ℕ → WorkflowStatus → Db → Db
set_workflow_status workflow_id status d = record d {
  workflows =
      update_where (λ w. w.id == workflow_id) (λ w. record w { status = status }) d.workflows;
}

abbrev pub bump_revisions : ℕ → Db → Db
bump_revisions workflow_id d = record d {
  actions =
      update_where (λ a. a.workflow_id == workflow_id)
        (λ a. record a { revision_count = a.revision_count + 1 }) d.actions;
}
