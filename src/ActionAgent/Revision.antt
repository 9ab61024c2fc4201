-- ===== src/ActionAgent/Revision.antt =====
-- What reject_workflow of app/routers/action_agent.py does to the workflow and its actions.
use Prim.Native.String.{count}
use legal_ai_copilot.Prelude.{ℕ, ◌≤◌, ◌<◌, String, some, ◌≡◌, arith, ◌==◌, ◌&&◌}
use legal_ai_copilot.Prelude.Table.{select_one}
use legal_ai_copilot.Models.{Workflow, WorkflowStatus}
use legal_ai_copilot.Database.{Db}
use legal_ai_copilot.Http.{Request, ok}
use legal_ai_copilot.Services.{Services}
use legal_ai_copilot.Workflows.{current_revision, set_workflow_status}
use legal_ai_copilot.Workflows.Rows.{row, row_laws, update_row, with_status}
use legal_ai_copilot.ActionAgent.Endpoints.{escalated, reject_workflow, strip, annotate_primary}

module _ (sv : Services) (req : Request) (k : ℕ) (reason : String) (d : Db) (w : Workflow)
    (found : select_one (λ w. w.id == k && w.org_id == req.org_id) d.workflows ≡ some w)
    (listed : row k d.workflows ≡ some w) (long : 20 ≤ count (strip reason)) where
  pub revising-workflows :
      current_revision k d.actions < 3
      → (reject_workflow sv req k reason d).1.workflows
        ≡ update_row k (with_status WorkflowStatus.revising) d.workflows
  unfolding reject_workflow annotate_primary
  revising-workflows left = ground arith

  pub escalated_result :
      3 ≤ current_revision k d.actions
      → reject_workflow sv req k reason d
        ≡ (ok escalated, set_workflow_status k WorkflowStatus.escalated d)
  unfolding reject_workflow
  escalated_result spent = ground arith

  -- A rejection whose trimmed reason has at least 20 characters puts a workflow of the
  -- organisation, of any status, COMPLETED and CANCELLED included, back to REVISING, where its
  -- actions have been revised fewer than three times; nothing else of its row changes.
  pub reject_workflow-revives :
      current_revision k d.actions < 3
      → row k (reject_workflow sv req k reason d).1.workflows
        ≡ some (record w { status = WorkflowStatus.revising })
  reject_workflow-revives left = rw (revising-workflows left) (simp row_laws (rw listed))
