-- ===== src/Database.antt =====
-- The state that the endpoints and the worker share: the tables of PostgreSQL (app/models.py), the
-- Celery queue of `app.tasks.process_workflow` (newest first) and the emitted audit events of
-- app/services/audit/events.py (newest first).
use legal_ai_copilot.Prelude.{ℕ, String, Bool, Option, List, ◌∷◌}
use legal_ai_copilot.Models.{Goal, Workflow, Action, ApprovalRequest, Deadline, Finding, IntentType}

-- The events that the approval endpoints emit, with the workflow, the organisation and the user of
-- their correlation context: `workflow_completed` with intent "approval.approved", and
-- `workflow_failed` with "approval.escalated …" or "approval.rejected — reason".
pub data Event : Type 0 where
  approval_approved : ℕ → ℕ → Option ℕ → Event
  approval_escalated : ℕ → ℕ → Option ℕ → Event
  approval_rejected : ℕ → ℕ → Option ℕ → String → Event

-- a row of `intent_logs`
pub record IntentLog : Type 0 where
  pub workflow_id : ℕ
  pub confirmed_intent : IntentType
  pub lawyer_override : Bool

pub record Db : Type 0 where
  pub goals : List Goal
  pub workflows : List Workflow
  pub actions : List Action
  pub approvals : List ApprovalRequest
  pub deadlines : List Deadline
  pub findings : List Finding
  pub intent_logs : List IntentLog
  pub queue : List ℕ
  pub events : List Event

-- `send_task("app.tasks.process_workflow", args=[str(workflow_id)])`
abbrev pub dispatch : ℕ → Db → Db
dispatch workflow_id d = record d { queue = workflow_id ∷ d.queue }

abbrev pub emit : Event → Db → Db
emit e d = record d { events = e ∷ d.events }
