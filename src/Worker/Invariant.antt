-- ===== src/Worker/Invariant.antt =====
-- An invariant of the tables that every statement of the worker keeps is kept by the whole task.
use legal_ai_copilot.Prelude.{ℕ, Bool, Option, none, some, List}
use legal_ai_copilot.Models.{
  Workflow, Brief, DraftPayload, Action, IntentType, WorkflowStatus, Recommendation,
}
use legal_ai_copilot.Database.{Db}
use legal_ai_copilot.Services.{Services}
use legal_ai_copilot.Workflows.{set_workflow_status}
use legal_ai_copilot.Prelude.{◌==◌, ltb}
use legal_ai_copilot.Prelude.Table.{select_one}
use legal_ai_copilot.Worker.Node.{change, Draft, Outside, Outcome, returned, crashed}
use legal_ai_copilot.Worker.Nodes.{
  save_log, record_retrieval, set_wf_status, intent_node, ambiguity_gate_node,
}
use legal_ai_copilot.Worker.Act.{
  finish_draft, draft_from, draft_node, export_action, export_node, save_brief, save_actions,
  save_export, write_draft, draft_of,
}
use legal_ai_copilot.Worker.Process.{
  analyze_path, reason_path, act_path, intent_path, classify, gate, start_workflow, resume_draft,
  resume_export, run_from, run_row, mark_failed, safely, process_workflow, Report,
}
use legal_ai_copilot.Worker.Keeps.{Keeps, Keeps-if, Keeps-change, Keeps-bind, keeps_rules}

-- every statement that the worker executes on the tables keeps `P`
pub record KeptByWrites (P : Db → Type 0) (sv : Services) : Type 0 where
  pub status : (wf : ℕ) (s : WorkflowStatus) (d : Db) → P d → P (set_workflow_status wf s d)
  pub log : (wf : ℕ) (i : IntentType) (d : Db) → P d → P (save_log wf i d)
  pub retrieval :
      (reranked : Bool) (wf : ℕ) (found : Option (List ℕ)) (d : Db)
      → P d
      → P (record_retrieval reranked wf found d)
  pub brief : (wf : ℕ) (b : Brief) (d : Db) → P d → P (save_brief wf b d)
  pub rows :
      (wf : Workflow) (fresh : ℕ → ℕ) (recs : List Recommendation) (d : Db)
      → P d
      → P (save_actions wf fresh recs d)
  pub draft : (wf : ℕ) (p : DraftPayload) (d : Db) → P d → P (write_draft sv wf p d)
  pub export : (wf now : ℕ) (action : Action) (d : Db) → P d → P (save_export sv wf now action d)
  pub failure : (wf : ℕ) (d : Db) → P d → P (mark_failed wf d)

module _ (P : Db → Type 0) (sv : Services) (w : KeptByWrites P sv) where
  status-Keeps : (wf : ℕ) (s : WorkflowStatus) → Keeps P (set_wf_status wf s)
  unfolding set_wf_status
  status-Keeps wf s = Keeps-change _ (w.status wf s)

  log-Keeps : (wf : ℕ) (i : IntentType) → Keeps P (change (save_log wf i))
  log-Keeps wf i = Keeps-change _ (w.log wf i)

  retrieval-Keeps :
      (reranked : Bool) (wf : ℕ) (found : Option (List ℕ))
      → Keeps P (change (record_retrieval reranked wf found))
  retrieval-Keeps reranked wf found = Keeps-change _ (w.retrieval reranked wf found)

  brief-Keeps : (wf : ℕ) (b : Brief) → Keeps P (change (save_brief wf b))
  brief-Keeps wf b = Keeps-change _ (w.brief wf b)

  rows-Keeps :
      (wf : Workflow) (fresh : ℕ → ℕ) (recs : List Recommendation)
      → Keeps P (change (save_actions wf fresh recs))
  rows-Keeps wf fresh recs = Keeps-change _ (w.rows wf fresh recs)

  draft-Keeps : (wf : ℕ) (p : DraftPayload) → Keeps P (change (write_draft sv wf p))
  draft-Keeps wf p = Keeps-change _ (w.draft wf p)

  export-Keeps : (wf now : ℕ) (action : Action) → Keeps P (change (save_export sv wf now action))
  export-Keeps wf now action = Keeps-change _ (w.export wf now action)

  analyze_path-Keeps : (o : Outside) (wf : ℕ) → Keeps P (analyze_path o wf)
  unfolding analyze_path
  analyze_path-Keeps o wf = search (keeps_rules, status-Keeps, log-Keeps, retrieval-Keeps) depth 12

  reason_path-Keeps : (o : Outside) (wf : ℕ) → Keeps P (reason_path o wf)
  unfolding reason_path
  reason_path-Keeps o wf = search (keeps_rules, status-Keeps, retrieval-Keeps) depth 20

  act_path-Keeps : (o : Outside) (wf : ℕ) → Keeps P (act_path o wf)
  unfolding act_path
  act_path-Keeps o wf = search (keeps_rules, status-Keeps, retrieval-Keeps, brief-Keeps) depth 14

  intent_path-Keeps : (o : Outside) (wf : ℕ) (i : IntentType) → Keeps P (intent_path o wf i)
  unfolding intent_path
  intent_path-Keeps o wf IntentType.analyze = analyze_path-Keeps o wf
  intent_path-Keeps o wf IntentType.reason = reason_path-Keeps o wf
  intent_path-Keeps o wf IntentType.act = act_path-Keeps o wf
  intent_path-Keeps o wf IntentType.unknown = search keeps_rules

  classify-Keeps :
      (o : Outside) (wf : ℕ) (pre : Option (IntentType × ℕ)) → Keeps P (classify o wf pre)
  unfolding classify intent_node
  classify-Keeps o wf none = search (keeps_rules, status-Keeps, log-Keeps) depth 8
  classify-Keeps o wf (some c) = search keeps_rules

  gate-Keeps : (o : Outside) (wf : ℕ) (c : IntentType × ℕ) → Keeps P (gate o wf c)
  unfolding gate ambiguity_gate_node
  gate-Keeps o wf (intent, confidence) =
      Keeps-if (ltb confidence 800000) _ _ (search (keeps_rules, status-Keeps) depth 8)
        (intent_path-Keeps o wf intent)

  start_workflow-Keeps :
      (o : Outside) (wf : ℕ) (pre : Option (IntentType × ℕ)) → Keeps P (start_workflow o wf pre)
  unfolding start_workflow
  start_workflow-Keeps o wf pre = Keeps-bind _ _ (classify-Keeps o wf pre) (gate-Keeps o wf)

  finish_draft-Keeps : (wf : ℕ) (b : Brief) (t : Option Draft) → Keeps P (finish_draft sv wf b t)
  unfolding finish_draft
  finish_draft-Keeps wf b none = search (keeps_rules, status-Keeps)
  finish_draft-Keeps wf b (some t) = search (keeps_rules, status-Keeps, draft-Keeps) depth 8

  draft_from-Keeps :
      (o : Outside) (wf : ℕ) (row : Option (Workflow × Brief)) → Keeps P (draft_from sv o wf row)
  unfolding draft_from
  draft_from-Keeps o wf none = search (keeps_rules, status-Keeps)
  draft_from-Keeps o wf (some (row, b)) =
      Keeps-bind _ _ (rows-Keeps row o.fresh_id b.recommended_actions)
        (λ _. finish_draft-Keeps wf b (draft_of o))

  draft_node-Keeps : (o : Outside) (wf : ℕ) → Keeps P (draft_node sv o wf)
  unfolding draft_node
  draft_node-Keeps o wf = search (keeps_rules, status-Keeps, draft_from-Keeps) depth 8

  export_action-Keeps :
      (o : Outside) (wf : ℕ) (a : Option Action) → Keeps P (export_action sv o wf a)
  unfolding export_action
  export_action-Keeps o wf none = search keeps_rules
  export_action-Keeps o wf (some a) = search (keeps_rules, export-Keeps) depth 8

  export_node-Keeps : (o : Outside) (wf : ℕ) → Keeps P (export_node sv o wf)
  unfolding export_node
  export_node-Keeps o wf = search (keeps_rules, export_action-Keeps) depth 8

  resume_draft-Keeps : (o : Outside) (wf : ℕ) → Keeps P (resume_draft sv o wf)
  unfolding resume_draft
  resume_draft-Keeps o wf = search (keeps_rules, draft_node-Keeps) depth 8

  resume_export-Keeps : (o : Outside) (wf : ℕ) → Keeps P (resume_export sv o wf)
  unfolding resume_export
  resume_export-Keeps o wf = search (keeps_rules, export_node-Keeps) depth 8

  run_from-Keeps :
      (o : Outside) (wf : ℕ) (pre : Option (IntentType × ℕ)) (s : WorkflowStatus)
      → Keeps P (run_from sv o wf pre s)
  unfolding run_from
  run_from-Keeps o wf pre WorkflowStatus.awaiting_brief_confirmation = resume_draft-Keeps o wf
  run_from-Keeps o wf pre WorkflowStatus.awaiting_approval = resume_export-Keeps o wf
  run_from-Keeps o wf pre WorkflowStatus.revising =
      search (keeps_rules, status-Keeps, resume_draft-Keeps) depth 8
  run_from-Keeps o wf pre other = start_workflow-Keeps o wf pre

  run_row-Keeps :
      (o : Outside) (wf : ℕ) (pre : Option (IntentType × ℕ)) (row : Option Workflow)
      → Keeps P (run_row sv o wf pre row)
  unfolding run_row
  run_row-Keeps o wf pre none = search keeps_rules
  run_row-Keeps o wf pre (some row) = run_from-Keeps o wf pre row.status

  safely-keeps : (wf : ℕ) (r : Outcome Report) (d : Db) → P d → P (safely wf (r, d)).1
  safely-keeps wf (returned r) d h = h
  safely-keeps wf crashed d h = w.failure wf d h

  -- A predicate on the tables that each statement of the worker keeps holds after the whole task,
  -- on every path and whatever crashes, if it held before.
  pub process_workflow-keeps :
      (o : Outside) (wf : ℕ) (pre : Option (IntentType × ℕ)) (d : Db)
      → P d
      → P (process_workflow sv o wf pre d).1
  unfolding process_workflow
  process_workflow-keeps o wf pre d h =
      let row = select_one (λ w. w.id == wf) d.workflows in
      let (r, d') = run_row sv o wf pre row d in
      safely-keeps wf r d' ((run_row-Keeps o wf pre row).at d h)
