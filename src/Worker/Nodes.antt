-- ===== src/Worker/Nodes.antt =====
-- app/services/agent/nodes.py: the nodes of the intent gate and of the ANALYZE and REASON paths.
use legal_ai_copilot.Prelude.{
  ℕ, String, Bool, true, false, not, ◌||◌, Option, none, some, List, [], ◌∷◌, length, ltb, str_eq,
  if◌then◌else◌,
}
use legal_ai_copilot.Prelude.Table.{select}
use legal_ai_copilot.Models.{IntentType, WorkflowStatus, EscalationType}
use legal_ai_copilot.Database.{Db}
use legal_ai_copilot.Workflows.{set_workflow_status}
use legal_ai_copilot.Worker.Node.{Node, Outside, return, attribute, change, ◌>>◌}

-- `_set_wf_status`
unfoldable pub set_wf_status : ℕ → WorkflowStatus → Node Unit
set_wf_status workflow_id status = change (set_workflow_status workflow_id status)

-- the members of the enumeration `WorkflowStatus` of app/models.py, by name
abbrev pub members : List (String × WorkflowStatus)
members =
    ("CLASSIFYING", WorkflowStatus.classifying)
    ∷ ("AWAITING_INTENT_CONFIRMATION", WorkflowStatus.awaiting_intent_confirmation)
    ∷ ("RETRIEVING", WorkflowStatus.retrieving)
    ∷ ("EXPANDING", WorkflowStatus.expanding)
    ∷ ("REASONING", WorkflowStatus.reasoning)
    ∷ ("BRIEFING", WorkflowStatus.briefing)
    ∷ ("AWAITING_BRIEF_CONFIRMATION", WorkflowStatus.awaiting_brief_confirmation)
    ∷ ("DRAFTING", WorkflowStatus.drafting)
    ∷ ("AWAITING_APPROVAL", WorkflowStatus.awaiting_approval)
    ∷ ("EXECUTING", WorkflowStatus.executing)
    ∷ ("REVISING", WorkflowStatus.revising)
    ∷ ("RECOVERING", WorkflowStatus.recovering)
    ∷ ("COMPLETED", WorkflowStatus.completed)
    ∷ ("ESCALATED", WorkflowStatus.escalated)
    ∷ ("CANCELLED", WorkflowStatus.cancelled)
    ∷ ("FAILED", WorkflowStatus.failed)
    ∷ []

-- `WorkflowStatus.NAME`, for a name that the table may lack
unfoldable pub member_named : String → List (String × WorkflowStatus) → Option WorkflowStatus
member_named name [] = none
member_named name ((key, status) ∷ rest) =
    let later = member_named name rest in if str_eq key name then some status else later

abbrev pub or_fallback : Option (IntentType × ℕ) → IntentType × ℕ
or_fallback none = (IntentType.analyze, 500000)
or_fallback (some c) = c

-- the row of `intent_logs` for a classification by a model
abbrev pub save_log : ℕ → IntentType → Db → Db
save_log workflow_id intent d = record d {
  intent_logs =
      record { workflow_id = workflow_id; confirmed_intent = intent; lawyer_override = false }
      ∷ d.intent_logs;
}

unfoldable pub intent_node : Outside → ℕ → Node (IntentType × ℕ)
intent_node o workflow_id = do
  set_wf_status workflow_id WorkflowStatus.classifying
  change (save_log workflow_id (or_fallback o.classification).0)
  return (or_fallback o.classification)

unfoldable pub ambiguity_gate_node : ℕ → Node WorkflowStatus
ambiguity_gate_node workflow_id = do
  set_wf_status workflow_id WorkflowStatus.awaiting_intent_confirmation
  return WorkflowStatus.awaiting_intent_confirmation

-- fewer than 3 chunks with a score above 0.5
unfoldable pub lacks_evidence : List ℕ → Bool
lacks_evidence scores = ltb (length (select (λ s. ltb 500000 s) scores)) 3

pub record Retrieved : Type 0 where
  pub has_context : Bool
  pub retrieval_aborted : Bool

abbrev pub has_chunks : List ℕ → Bool
has_chunks [] = false
has_chunks (s ∷ rest) = true

abbrev pub retrieved_from : Option (List ℕ) → Retrieved
retrieved_from none = record { has_context = false; retrieval_aborted = true }
retrieved_from (some scores) = record {
  has_context = has_chunks scores;
  retrieval_aborted = lacks_evidence scores;
}

abbrev pub save_finding : ℕ → Db → Db
save_finding workflow_id d = record d {
  findings =
      record {
        workflow_id = workflow_id;
        claim = "UNDETERMINED: Insufficient evidence to answer the query";
        escalated = true;
        escalation_type = some EscalationType.insufficient_coverage;
      }
      ∷ d.findings;
}

-- the log of the reranker, and the escalated finding where the evidence lacks
unfoldable pub record_retrieval : Bool → ℕ → Option (List ℕ) → Db → Db
record_retrieval reranked workflow_id none d = d
record_retrieval reranked workflow_id (some scores) d =
    let logged = if reranked then save_log workflow_id IntentType.analyze d else d in
    if lacks_evidence scores then save_finding workflow_id logged else logged

unfoldable pub retrieval_node : Outside → ℕ → Node Retrieved
retrieval_node o workflow_id = do
  set_wf_status workflow_id WorkflowStatus.retrieving
  change (record_retrieval o.reranked workflow_id o.retrieval)
  return (retrieved_from o.retrieval)

unfoldable pub synthesis_node : ℕ → Retrieved → Node WorkflowStatus
synthesis_node workflow_id r =
    if r.retrieval_aborted || not r.has_context
    then (do set_wf_status workflow_id WorkflowStatus.completed; return WorkflowStatus.completed)
    else (do
      set_wf_status workflow_id WorkflowStatus.drafting
      change (save_log workflow_id IntentType.analyze)
      set_wf_status workflow_id WorkflowStatus.completed
      return WorkflowStatus.completed)

unfoldable pub graph_expansion_node : ℕ → Node WorkflowStatus
graph_expansion_node workflow_id = do
  set_wf_status workflow_id WorkflowStatus.expanding
  return WorkflowStatus.expanding

-- The four nodes of the REASON path end in `return {"status": WorkflowStatus.PROCESSING.value, …}`.
unfoldable pub reason_node : Node WorkflowStatus
unfolding member_named
reason_node = attribute (member_named "PROCESSING" members)

unfoldable pub result_node : ℕ → Node WorkflowStatus
result_node workflow_id = do
  set_wf_status workflow_id WorkflowStatus.completed
  return WorkflowStatus.completed
