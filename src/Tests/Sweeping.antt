-- ===== src/Tests/Sweeping.antt =====
-- The theorems on the lawyer's decisions, on goals and on the sweeps at concrete inputs.
use legal_ai_copilot.Prelude.{true, some, ◌≡◌, refl, arith, inl, Among}
use legal_ai_copilot.Prelude.Table.{select_one, update_where, exists_where}
use legal_ai_copilot.Models.{WorkflowStatus, GoalStatus, ApprovalStatus, is_ended}
use legal_ai_copilot.Database.{Db}
use legal_ai_copilot.Workflows.{current_revision}
use legal_ai_copilot.Workflows.Rows.{row}
use legal_ai_copilot.ActionAgent.{reject_workflow, strip}
use legal_ai_copilot.ActionAgent.Revision.{reject_workflow-revives}
use legal_ai_copilot.ActionAgent.Cycles.{rejections, reject_workflow-cycle}
use legal_ai_copilot.Goals.{cancel_goal}
use legal_ai_copilot.Goals.Cancelling.{cancel_goal-ends}
use legal_ai_copilot.Cron.{expire_stale_approvals}
use legal_ai_copilot.Cron.Expiry.{sweep-pending}
use legal_ai_copilot.Tests.Fixtures.{services, lawyer, reason, waiting, db, workflow, approval}

-- workflow 1 has been completed
abbrev completed : Db
completed = db WorkflowStatus.completed 0 ApprovalStatus.used

reject_workflow-revives_example :
    row 1 (reject_workflow services lawyer 1 reason completed).1.workflows
    ≡ some (workflow 1 WorkflowStatus.revising)
unfolding select_one current_revision strip
reject_workflow-revives_example =
    reject_workflow-revives services lawyer 1 reason completed (workflow 1 WorkflowStatus.completed)
      refl refl (omega arith) (omega arith)

abbrev unrevised : Db
unrevised = db WorkflowStatus.awaiting_approval 0 ApprovalStatus.pending

-- three rejections, and a fourth
reject_workflow-cycle_example :
    let d' = rejections services lawyer 1 reason 4 unrevised in
    (row 1 d'.workflows ≡ some (workflow 1 WorkflowStatus.escalated))
    × (current_revision 1 d'.actions ≡ 3)
unfolding select_one current_revision exists_where strip
reject_workflow-cycle_example =
    reject_workflow-cycle services lawyer 1 reason (omega arith)
      (workflow 1 WorkflowStatus.awaiting_approval) unrevised 3 refl refl refl refl

cancel_goal-ends_example : is_ended WorkflowStatus.cancelled ≡ true
unfolding cancel_goal select_one update_where
cancel_goal-ends_example =
    cancel_goal-ends lawyer 1 1 waiting GoalStatus.cancelled refl
      (record (workflow 1 WorkflowStatus.cancelled) { completed_at = some 1000 }) (inl refl) refl

sweep-pending_example :
    Among
      (workflow 1 WorkflowStatus.awaiting_approval)
      (expire_stale_approvals 5000 waiting).1.workflows
sweep-pending_example =
    sweep-pending 5000 waiting (workflow 1 WorkflowStatus.awaiting_approval)
      (approval 1 ApprovalStatus.pending) (inl refl) (inl refl) refl refl (omega arith)
