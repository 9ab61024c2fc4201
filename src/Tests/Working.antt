-- ===== src/Tests/Working.antt =====
-- The theorems on the worker at concrete workflows.
use legal_ai_copilot.Prelude.{none, some, [], ◌∷◌, ◌≡◌, refl, arith}
use legal_ai_copilot.Prelude.Table.{select, select_one}
use legal_ai_copilot.Models.{IntentType, WorkflowStatus, ApprovalStatus}
use legal_ai_copilot.Database.{Db}
use legal_ai_copilot.Workflows.Rows.{row}
use legal_ai_copilot.Worker.{Outside, reports, process_workflow, brief_of, draft_of, lacks_evidence}
use legal_ai_copilot.Worker.Paths.{
  status_of, process_reason, process_act, process_unsure, process_lacking,
}
use legal_ai_copilot.Worker.Resume.{Exports}
use legal_ai_copilot.Worker.Drafting.{process_draft}
use legal_ai_copilot.Tests.Fixtures.{services, db, waiting, workflow, brief, outside, action}

abbrev classifying : Db
classifying = db WorkflowStatus.classifying 0 ApprovalStatus.pending

abbrev acting : Outside
acting = outside (some (IntentType.act, 950000)) none

abbrev reasoning : Outside
reasoning = outside (some (IntentType.reason, 950000)) (some (800000 ∷ 700000 ∷ 600000 ∷ []))

abbrev lacking : Outside
lacking = outside (some (IntentType.analyze, 950000)) (some (800000 ∷ 300000 ∷ []))

abbrev unsure : Outside
unsure = outside (some (IntentType.act, 600000)) none

process_act_example :
    let (r, d') = process_workflow services acting 1 none classifying in
    (r ≡ reports WorkflowStatus.awaiting_brief_confirmation)
    × (row 1 d'.workflows
        ≡ some (record (workflow 1 WorkflowStatus.awaiting_brief_confirmation) {
          decision_brief_payload = some (brief_of acting);
        }))
    × (d'.actions ≡ classifying.actions)
unfolding select_one
process_act_example =
    process_act services acting 1 classifying (workflow 1 WorkflowStatus.classifying) refl refl
      950000 refl (omega arith)

process_reason_example :
    let (r, d') = process_workflow services reasoning 1 none classifying in
    (r ≡ reports WorkflowStatus.failed) × (status_of 1 d' ≡ some WorkflowStatus.failed)
unfolding select_one lacks_evidence select
process_reason_example =
    process_reason services reasoning 1 classifying (workflow 1 WorkflowStatus.classifying) refl
      refl 950000 (800000 ∷ 700000 ∷ 600000 ∷ []) refl (omega arith) refl refl

process_lacking_example :
    let (r, d') = process_workflow services lacking 1 none classifying in
    (r ≡ reports WorkflowStatus.completed) × (status_of 1 d' ≡ some WorkflowStatus.retrieving)
unfolding select_one lacks_evidence select
process_lacking_example =
    process_lacking services lacking 1 classifying (workflow 1 WorkflowStatus.classifying) refl refl
      IntentType.analyze 950000 refl (omega arith) refl refl

process_unsure_example :
    let (r, d') = process_workflow services unsure 1 none classifying in
    (r ≡ reports WorkflowStatus.awaiting_intent_confirmation)
    × (row 1 d'.workflows ≡ some (workflow 1 WorkflowStatus.awaiting_intent_confirmation))
    × (d'.actions ≡ classifying.actions)
    × (d'.approvals ≡ classifying.approvals)
unfolding select_one
process_unsure_example =
    process_unsure services unsure 1 classifying (workflow 1 WorkflowStatus.classifying) refl refl
      IntentType.act 600000 refl (omega arith)

process_draft_example :
    let (r, d') =
      process_workflow services acting 1 none
        (db WorkflowStatus.revising 1 ApprovalStatus.rejected) in
    (r ≡ reports WorkflowStatus.awaiting_approval)
    × (status_of 1 d' ≡ some WorkflowStatus.awaiting_approval)
unfolding select_one draft_of
process_draft_example =
    process_draft services acting 1 (db WorkflowStatus.revising 1 ApprovalStatus.rejected)
      (workflow 1 WorkflowStatus.revising) brief refl refl refl

-- The one action of the workflow has a draft, so the export succeeds.
exports : Exports services acting 1 waiting (action 0)
unfolding Exports select
exports = (refl, (_, refl), refl, refl)
