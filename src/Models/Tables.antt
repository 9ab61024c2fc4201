-- ===== src/Models/Tables.antt =====
-- app/models.py: the rows of the tables.
use legal_ai_copilot.Prelude.{ℕ, String, Bool, Option, List}
use legal_ai_copilot.Models.Enums.{
  IntentType, WorkflowStatus, GoalStatus, ActionType, ActionStatus, ApprovalStatus, DeadlineStatus,
  EscalationType,
}

pub record Goal : Type 0 where
  pub id : ℕ
  pub workspace_id : ℕ
  pub org_id : ℕ
  pub goal_text : String
  pub status : GoalStatus
  pub intent : Option IntentType
  pub answer : Option String

-- an entry of `recommended_actions` of a decision brief
pub record Recommendation : Type 0 where
  pub action_type : String
  pub description : String
  pub urgency : ℕ

-- the columns of `decision_brief_payload` that later code reads
pub record Brief : Type 0 where
  pub summary : String
  pub recommended_actions : List Recommendation
  pub verification_checklist : List String
  pub proceed_recommended : Bool
  pub confidence : ℕ

pub record Workflow : Type 0 where
  pub id : ℕ
  pub goal_id : ℕ
  pub workspace_id : ℕ
  pub org_id : ℕ
  pub intent : IntentType
  pub intent_confirmed_by_human : Bool
  pub confirmed_intent : Option IntentType
  pub status : WorkflowStatus
  pub result_ref : Option String
  pub error_context : Option String
  pub decision_brief_payload : Option Brief
  pub created_at : ℕ
  pub completed_at : Option ℕ

-- the keys of `draft_payload`
pub record DraftPayload : Type 0 where
  pub draft_text : String
  pub source_citations : List String
  pub grounding_score : ℕ
  pub missing_info : List String
  pub verification_checklist : List String
  pub rejection_reason : Option String
  pub revision_number : Option ℕ

pub record Action : Type 0 where
  pub id : ℕ
  pub workflow_id : ℕ
  pub org_id : ℕ
  pub action_type : ActionType
  pub description : String
  pub urgency_score : ℕ
  pub status : ActionStatus
  pub draft_payload : Option DraftPayload
  pub deadline_id : Option ℕ
  pub revision_count : ℕ
  pub task_order : ℕ

pub record ApprovalRequest : Type 0 where
  pub id : ℕ
  pub workflow_id : ℕ
  pub action_id : ℕ
  pub org_id : ℕ
  pub token_hash : String
  pub status : ApprovalStatus
  pub actor : Option ℕ
  pub decision_timestamp : Option ℕ
  pub rejection_reason : Option String
  pub expires_at : ℕ
  pub created_at : ℕ

pub record Finding : Type 0 where
  pub workflow_id : ℕ
  pub claim : String
  pub escalated : Bool
  pub escalation_type : Option EscalationType

pub record Deadline : Type 0 where
  pub id : ℕ
  pub workspace_id : ℕ
  pub org_id : ℕ
  pub obligation_description : String
  pub resolved_deadline : Option ℕ
  pub status : DeadlineStatus
  pub urgency_score : ℕ
