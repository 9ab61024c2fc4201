-- ===== src/Worker/Process.antt =====
-- app/tasks.py: the task `process_workflow`.
use legal_ai_copilot.Prelude.{ℕ, Option, none, some, ltb, ◌==◌, if◌then◌else◌}
use legal_ai_copilot.Prelude.Table.{select_one, update_where}
use legal_ai_copilot.Models.{Workflow, IntentType, WorkflowStatus}
use legal_ai_copilot.Database.{Db}
use legal_ai_copilot.Services.{Services}
use legal_ai_copilot.Worker.Node.{Node, Outcome, returned, crashed, Outside, return, ◌>>=◌, ◌>>◌}
use legal_ai_copilot.Worker.Nodes.{
  set_wf_status, intent_node, ambiguity_gate_node, retrieval_node, synthesis_node,
  graph_expansion_node, reason_node, result_node,
}
use legal_ai_copilot.Worker.Act.{detect_node, decision_brief_node, draft_node, export_node}

-- the `status` that the task returns
pub data Report : Type 0 where
  not_found : Report
  reports : WorkflowStatus → Report

unfoldable pub analyze_path : Outside → ℕ → Node Report
unfolding retrieval_node synthesis_node
analyze_path o workflow_id = do
  r ← retrieval_node o workflow_id
  if r.retrieval_aborted
      then return (reports WorkflowStatus.completed)
      else (do synthesis_node workflow_id r; return (reports WorkflowStatus.completed))

unfoldable pub reason_path : Outside → ℕ → Node Report
unfolding retrieval_node graph_expansion_node reason_node result_node
reason_path o workflow_id = do
  r ← retrieval_node o workflow_id
  if r.retrieval_aborted then return (reports WorkflowStatus.completed) else (do
    graph_expansion_node workflow_id
    reason_node
    reason_node
    reason_node
    reason_node
    result_node workflow_id
    return (reports WorkflowStatus.completed))

unfoldable pub act_path : Outside → ℕ → Node Report
unfolding retrieval_node detect_node decision_brief_node
act_path o workflow_id = do
  retrieval_node o workflow_id
  detect_node workflow_id
  decision_brief_node o workflow_id
  return (reports WorkflowStatus.awaiting_brief_confirmation)

unfoldable pub intent_path : Outside → ℕ → IntentType → Node Report
intent_path o workflow_id IntentType.analyze = analyze_path o workflow_id
intent_path o workflow_id IntentType.reason = reason_path o workflow_id
intent_path o workflow_id IntentType.act = act_path o workflow_id
intent_path o workflow_id IntentType.unknown = return (reports WorkflowStatus.failed)

unfoldable pub classify : Outside → ℕ → Option (IntentType × ℕ) → Node (IntentType × ℕ)
classify o workflow_id none = intent_node o workflow_id
classify o workflow_id (some c) = return c

-- pause below a confidence of 0.80, or take the path of the intent
unfoldable pub gate : Outside → ℕ → IntentType × ℕ → Node Report
gate o workflow_id (intent, confidence) =
    if ltb confidence 800000
    then (do
      ambiguity_gate_node workflow_id
      return (reports WorkflowStatus.awaiting_intent_confirmation))
    else intent_path o workflow_id intent

unfoldable pub start_workflow : Outside → ℕ → Option (IntentType × ℕ) → Node Report
start_workflow o workflow_id preclassified = do
  found ← classify o workflow_id preclassified
  gate o workflow_id found

abbrev pub draft_report : WorkflowStatus → Report
draft_report WorkflowStatus.failed = reports WorkflowStatus.failed
draft_report _ = reports WorkflowStatus.awaiting_approval

unfoldable pub resume_draft : Services → Outside → ℕ → Node Report
unfolding draft_node
resume_draft sv o workflow_id = do
  status ← draft_node sv o workflow_id
  return (draft_report status)

unfoldable pub resume_export : Services → Outside → ℕ → Node Report
unfolding export_node
resume_export sv o workflow_id = do status ← export_node sv o workflow_id; return (reports status)

-- the branches on the status that the row has when the task starts
unfoldable pub run_from :
    Services → Outside → ℕ → Option (IntentType × ℕ) → WorkflowStatus → Node Report
run_from sv o workflow_id pre WorkflowStatus.awaiting_brief_confirmation =
    resume_draft sv o workflow_id
run_from sv o workflow_id pre WorkflowStatus.awaiting_approval = resume_export sv o workflow_id
run_from sv o workflow_id pre WorkflowStatus.revising = do
  set_wf_status workflow_id WorkflowStatus.drafting
  resume_draft sv o workflow_id
run_from sv o workflow_id pre other = start_workflow o workflow_id pre

unfoldable pub run_row :
    Services → Outside → ℕ → Option (IntentType × ℕ) → Option Workflow → Node Report
run_row sv o workflow_id pre none = return not_found
run_row sv o workflow_id pre (some wf) = run_from sv o workflow_id pre wf.status

-- `_safe_run`: an exception marks the workflow FAILED
abbrev pub mark_failed : ℕ → Db → Db
mark_failed workflow_id d = record d {
  workflows =
      update_where (λ w. w.id == workflow_id)
        (λ w. record w {
          status = WorkflowStatus.failed;
          error_context = some "Unhandled worker error";
        })
        d.workflows;
}

abbrev pub safely : ℕ → Outcome Report × Db → Report × Db
safely workflow_id (returned r, d) = (r, d)
safely workflow_id (crashed, d) = (reports WorkflowStatus.failed, mark_failed workflow_id d)

unfoldable pub process_workflow :
    Services → Outside → ℕ → Option (IntentType × ℕ) → Db → Report × Db
process_workflow sv o workflow_id preclassified d =
    safely workflow_id
      (run_row sv o workflow_id preclassified (select_one (λ w. w.id == workflow_id) d.workflows) d)
