-- ===== src/Worker/Act.antt =====
-- app/services/agent/nodes.py: the nodes of the ACT path.
use legal_ai_copilot.Prelude.{
  ℕ, ◌+◌, String, false, ◌&&◌, Option, none, some, List, [], ◌∷◌, ◌==◌, str_eq, if◌then◌else◌,
}
use legal_ai_copilot.Prelude.Table.{select, select_one, update_where, exists_where}
use legal_ai_copilot.Models.{
  Workflow, Action, Brief, Recommendation, DraftPayload, ActionType, WorkflowStatus, ActionStatus,
  is_draft_waiting,
}
use legal_ai_copilot.Database.{Db}
use legal_ai_copilot.Services.{Services}
use legal_ai_copilot.Worker.Node.{Node, Draft, Outside, return, look, change, ◌>>=◌, ◌>>◌}
use legal_ai_copilot.Worker.Nodes.{set_wf_status}

-- the registries are only read; no action is written before the brief is confirmed
unfoldable pub detect_node : ℕ → Node WorkflowStatus
detect_node workflow_id = do
  set_wf_status workflow_id WorkflowStatus.briefing
  return WorkflowStatus.briefing

abbrev pub minimal_brief : Brief
minimal_brief = record {
  summary =
      "The AI could not generate a complete brief due to a temporary service error. Please review the retrieved clauses manually and retry if needed.";
  recommended_actions = [];
  verification_checklist =
      "Manually review the retrieved contract context before proceeding"
      ∷ "Confirm the goal statement accurately reflects the required action" ∷ [];
  proceed_recommended = false;
  confidence = 0;
}

-- the structured output, else the plain-text fallback, else the minimal brief
unfoldable pub brief_of : Outside → Brief
brief_of o = elim o.brief_structured [
  | some b ↦ b
  | none ↦ elim o.brief_fallback [ some b ↦ b | none ↦ minimal_brief ]
]

abbrev pub save_brief : ℕ → Brief → Db → Db
save_brief workflow_id brief d = record d {
  workflows =
      update_where (λ w. w.id == workflow_id)
        (λ w. record w {
          decision_brief_payload = some brief;
          status = WorkflowStatus.awaiting_brief_confirmation;
        })
        d.workflows;
}

unfoldable pub decision_brief_node : Outside → ℕ → Node WorkflowStatus
unfolding brief_of
decision_brief_node o workflow_id = do
  change (save_brief workflow_id (brief_of o))
  return WorkflowStatus.awaiting_brief_confirmation

-- `ActionType[name] if name in ActionType.__members__ else DRAFT_RESPONSE`
abbrev pub action_type_of : String → ActionType
action_type_of t =
    if str_eq t "FILE_DOCUMENT"
    then ActionType.file_document
    else if str_eq t "SEND_NOTICE"
    then ActionType.send_notice
    else if str_eq t "UPDATE_CASE_TRACKER"
    then ActionType.update_case_tracker
    else if str_eq t "SET_REMINDER"
    then ActionType.set_reminder
    else if str_eq t "ESCALATE_TO_COUNSEL"
    then ActionType.escalate_to_counsel
    else ActionType.draft_response

abbrev pub action_row : Workflow → ℕ → Recommendation → Action
action_row wf id rec = record {
  id = id;
  workflow_id = wf.id;
  org_id = wf.org_id;
  action_type = action_type_of rec.action_type;
  description = rec.description;
  urgency_score = rec.urgency;
  status = ActionStatus.confirmed;
  draft_payload = none;
  deadline_id = none;
  revision_count = 0;
  task_order = 0;
}

-- INSERT … ON CONFLICT DO NOTHING
unfoldable pub insert_action : Action → List Action → List Action
insert_action a rows = if exists_where (λ r. r.id == a.id) rows then rows else a ∷ rows

-- one row for each recommendation; `k` counts the `uuid4` calls
unfoldable pub insert_actions :
    Workflow → (ℕ → ℕ) → ℕ → List Recommendation → List Action → List Action
unfolding insert_action
insert_actions wf fresh k [] rows = rows
insert_actions wf fresh k (rec ∷ recs) rows =
    insert_actions wf fresh (k + 1) recs (insert_action (action_row wf (fresh k) rec) rows)

abbrev pub save_actions : Workflow → (ℕ → ℕ) → List Recommendation → Db → Db
save_actions wf fresh recs d = record d { actions = insert_actions wf fresh 0 recs d.actions }

-- the structured output, else the recovered one, else the plain-text fallback
unfoldable pub draft_of : Outside → Option Draft
draft_of o = elim o.draft_structured [
  | some t ↦ some t
  | none ↦ elim o.draft_recovered [ some t ↦ some t | none ↦ o.draft_plain ]
]

abbrev pub payload_of : Brief → Draft → DraftPayload
payload_of brief draft = record {
  draft_text = draft.draft_text;
  source_citations = draft.source_citations;
  grounding_score = draft.grounding_score;
  missing_info = draft.missing_info;
  verification_checklist = brief.verification_checklist;
  rejection_reason = none;
  revision_number = none;
}

abbrev pub drafted : DraftPayload → Action → Action
drafted payload a = record a {
  draft_payload = some payload;
  status = ActionStatus.awaiting_approval;
}

-- the draft goes into the first action of the workflow
unfoldable pub write_draft : Services → ℕ → DraftPayload → Db → Db
write_draft sv workflow_id payload d =
    elim (sv.first_action (select (λ a. a.workflow_id == workflow_id) d.actions)) [
      | none ↦ d
      | some action ↦ record d {
        actions = update_where (λ a. a.id == action.id) (drafted payload) d.actions;
      }
    ]

-- the brief that `draft_node` reads back, with the row that holds it
abbrev pub brief_row : Option Workflow → Option (Workflow × Brief)
brief_row none = none
brief_row (some wf) = elim wf.decision_brief_payload [ none ↦ none | some b ↦ some (wf, b) ]

unfoldable pub finish_draft : Services → ℕ → Brief → Option Draft → Node WorkflowStatus
finish_draft sv workflow_id brief none = do
  set_wf_status workflow_id WorkflowStatus.failed
  return WorkflowStatus.failed
finish_draft sv workflow_id brief (some draft) = do
  change (write_draft sv workflow_id (payload_of brief draft))
  set_wf_status workflow_id WorkflowStatus.awaiting_approval
  return WorkflowStatus.awaiting_approval

unfoldable pub draft_from : Services → Outside → ℕ → Option (Workflow × Brief) → Node WorkflowStatus
unfolding draft_of finish_draft
draft_from sv o workflow_id none = do
  set_wf_status workflow_id WorkflowStatus.failed
  return WorkflowStatus.failed
draft_from sv o workflow_id (some (wf, brief)) = do
  change (save_actions wf o.fresh_id brief.recommended_actions)
  finish_draft sv workflow_id brief (draft_of o)

unfoldable pub draft_node : Services → Outside → ℕ → Node WorkflowStatus
unfolding draft_from
draft_node sv o workflow_id = do
  set_wf_status workflow_id WorkflowStatus.drafting
  found ← look (λ d. select_one (λ w. w.id == workflow_id) d.workflows)
  draft_from sv o workflow_id (brief_row found)

-- the waiting action with a payload that `export_node` takes
abbrev pub exportable : Option Action → Option Action
exportable none = none
exportable (some a) = elim a.draft_payload [ none ↦ none | some p ↦ some a ]

abbrev pub completed_with : String → ℕ → Workflow → Workflow
completed_with key now w = record w {
  status = WorkflowStatus.completed;
  completed_at = some now;
  result_ref = some key;
}

abbrev pub save_export : Services → ℕ → ℕ → Action → Db → Db
save_export sv workflow_id now action d = record d {
  actions =
      update_where (λ a. a.id == action.id) (λ a. record a { status = ActionStatus.executed })
        d.actions;
  workflows =
      update_where (λ w. w.id == workflow_id) (completed_with (sv.r2_key workflow_id action.id) now)
        d.workflows;
}

unfoldable pub export_action : Services → Outside → ℕ → Option Action → Node WorkflowStatus
export_action sv o workflow_id none = return WorkflowStatus.failed
export_action sv o workflow_id (some action) =
    if o.docx_built && o.uploaded
    then (do change (save_export sv workflow_id o.now action); return WorkflowStatus.completed)
    else return WorkflowStatus.failed

unfoldable pub export_node : Services → Outside → ℕ → Node WorkflowStatus
unfolding export_action
export_node sv o workflow_id = do
  waiting ←
      look (λ d. select (λ a. a.workflow_id == workflow_id && is_draft_waiting a.status) d.actions)
  export_action sv o workflow_id (exportable (sv.first_action waiting))
