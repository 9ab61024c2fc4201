-- ===== src/Models/Enums.antt =====
-- app/models.py: the enumerations, and the tests that the code makes on them.
use mathlib.Core.Bool.{Bool, true, false}

pub data UserRole : Type 0 where
  system_admin partner associate admin member : UserRole

pub data IntentType : Type 0 where
  analyze reason act unknown : IntentType

pub data WorkflowStatus : Type 0 where
  classifying awaiting_intent_confirmation retrieving expanding reasoning briefing : WorkflowStatus
  awaiting_brief_confirmation drafting awaiting_approval executing revising : WorkflowStatus
  recovering completed escalated cancelled failed : WorkflowStatus

pub data GoalStatus : Type 0 where
  pending processing completed failed cancelled : GoalStatus

pub data EscalationType : Type 0 where
  insufficient_coverage definitional_conflict structural_ambiguity : EscalationType

pub data ActionType : Type 0 where
  draft_response file_document send_notice update_case_tracker : ActionType
  set_reminder escalate_to_counsel : ActionType

pub data ActionStatus : Type 0 where
  detected confirmed drafting awaiting_approval approved executing executed : ActionStatus
  failed escalated cancelled : ActionStatus

pub data ApprovalStatus : Type 0 where
  pending approved rejected expired used : ApprovalStatus

pub data DeadlineStatus : Type 0 where
  active overdue completed superseded : DeadlineStatus

abbrev pub is_awaiting_approval : WorkflowStatus → Bool
is_awaiting_approval WorkflowStatus.awaiting_approval = true
is_awaiting_approval _ = false

abbrev pub is_awaiting_brief : WorkflowStatus → Bool
is_awaiting_brief WorkflowStatus.awaiting_brief_confirmation = true
is_awaiting_brief _ = false

abbrev pub is_pending : ApprovalStatus → Bool
is_pending ApprovalStatus.pending = true
is_pending _ = false

abbrev pub is_used : ApprovalStatus → Bool
is_used ApprovalStatus.used = true
is_used _ = false

abbrev pub is_expired : ApprovalStatus → Bool
is_expired ApprovalStatus.expired = true
is_expired _ = false

abbrev pub is_draft_waiting : ActionStatus → Bool
is_draft_waiting ActionStatus.awaiting_approval = true
is_draft_waiting _ = false

abbrev pub is_awaiting_intent : WorkflowStatus → Bool
is_awaiting_intent WorkflowStatus.awaiting_intent_confirmation = true
is_awaiting_intent _ = false

-- COMPLETED, CANCELLED or FAILED
abbrev pub is_ended : WorkflowStatus → Bool
is_ended WorkflowStatus.completed = true
is_ended WorkflowStatus.cancelled = true
is_ended WorkflowStatus.failed = true
is_ended _ = false

-- COMPLETED or CANCELLED
abbrev pub is_closed_goal : GoalStatus → Bool
is_closed_goal GoalStatus.completed = true
is_closed_goal GoalStatus.cancelled = true
is_closed_goal _ = false

-- the statuses at which `process_workflow` resumes a workflow that had been paused
abbrev pub is_paused : WorkflowStatus → Bool
is_paused WorkflowStatus.awaiting_brief_confirmation = true
is_paused WorkflowStatus.awaiting_approval = true
is_paused WorkflowStatus.revising = true
is_paused _ = false

abbrev pub is_admin : UserRole → Bool
is_admin admin = true
is_admin _ = false
