-- ===== src/Goals/Endpoints.antt =====
-- app/routers/goals.py: confirm-intent, confirm-plan and cancel.
use legal_ai_copilot.Prelude.{
  ℕ, String, Bool, true, not, ◌&&◌, Option, none, some, ◌∷◌, ltb, ◌==◌, str_eq, if◌then◌else◌,
}
use legal_ai_copilot.Prelude.Table.{select, select_one, update_where}
use legal_ai_copilot.Models.{
  Goal, Workflow, ApprovalRequest, IntentType, WorkflowStatus, GoalStatus, ApprovalStatus,
  is_awaiting_approval, is_pending, is_closed_goal, is_ended,
}
use legal_ai_copilot.Database.{Db}
use legal_ai_copilot.Http.{
  Request, Handler, send_task, pure, gets, or_raise, raise_if, raise_unless, modify, ◌>>=◌, ◌>>◌,
}
use legal_ai_copilot.Services.{Services}

unfoldable pub get_goal_for_org : ℕ → ℕ → ℕ → Handler Goal
get_goal_for_org goal_id workspace_id org_id =
    gets (λ d.
      select_one (λ g. g.id == goal_id && g.workspace_id == workspace_id && g.org_id == org_id)
        d.goals)
    >>= λ found. or_raise found 404

unfoldable pub get_workflow_for_goal : Services → ℕ → ℕ → Handler (Option Workflow)
get_workflow_for_goal sv goal_id org_id =
    gets (λ d.
      sv.newest_workflow (select (λ w. w.goal_id == goal_id && w.org_id == org_id) d.workflows))

-- `confirmed not in ("ANALYZE", "REASON", "ACT")` and `IntentType(confirmed)`
abbrev pub intent_of : String → Option IntentType
intent_of t =
    if str_eq t "ANALYZE"
    then some IntentType.analyze
    else if str_eq t "REASON"
    then some IntentType.reason
    else if str_eq t "ACT"
    then some IntentType.act
    else none

abbrev pub set_goal_intent : ℕ → IntentType → Db → Db
set_goal_intent goal_id intent d = record d {
  goals = update_where (λ g. g.id == goal_id) (λ g. record g { intent = some intent }) d.goals;
}

abbrev pub set_goal_status : ℕ → GoalStatus → Db → Db
set_goal_status goal_id status d = record d {
  goals = update_where (λ g. g.id == goal_id) (λ g. record g { status = status }) d.goals;
}

-- the override is logged, and then written to the workflow
abbrev pub override_intent : IntentType → Option Workflow → Db → Db
override_intent intent none d = d
override_intent intent (some wf) d = record d {
  intent_logs =
      record { workflow_id = wf.id; confirmed_intent = intent; lawyer_override = true }
      ∷ d.intent_logs;
  workflows =
      update_where (λ w. w.id == wf.id)
        (λ w. record w {
          intent = intent;
          intent_confirmed_by_human = true;
          confirmed_intent = some intent;
        })
        d.workflows;
}

-- POST /{goal_id}/confirm-intent; `upper` is `str.upper`
unfoldable pub confirm_intent : Services → Request → ℕ → ℕ → String → Handler IntentType
unfolding get_goal_for_org get_workflow_for_goal
confirm_intent sv req workspace_id goal_id confirmed = do
  intent ← or_raise (intent_of (sv.upper confirmed)) 400
  goal ← get_goal_for_org goal_id workspace_id req.org_id
  modify (set_goal_intent goal.id intent)
  workflow ← get_workflow_for_goal sv goal_id req.org_id
  modify (override_intent intent workflow)
  pure intent

-- `if req.token:`
abbrev pub token_given : Option String → Option String
token_given none = none
token_given (some t) = if str_eq t "" then none else some t

abbrev pub mark_used : ApprovalRequest → ApprovalRequest
mark_used a = record a { status = ApprovalStatus.used }

-- a pending request of the workflow that has not run out, with the hash of the token
abbrev pub token_row : Services → Request → ℕ → String → ApprovalRequest → Bool
token_row sv req workflow_id token a =
    a.workflow_id == workflow_id
    && str_eq a.token_hash (sv.sha256 token)
    && is_pending a.status
    && ltb req.now a.expires_at

-- a token that is given must be that of a pending request of the workflow, and is consumed
unfoldable pub consume_token : Services → Request → ℕ → Option String → Handler Unit
consume_token sv req workflow_id none = pure tt
consume_token sv req workflow_id (some token) = do
  found ← gets (λ d. select_one (token_row sv req workflow_id token) d.approvals)
  approval ← or_raise found 403
  modify
      (λ d. record d { approvals = update_where (λ r. r.id == approval.id) mark_used d.approvals })

-- POST /{goal_id}/confirm-plan
unfoldable pub confirm_plan : Services → Request → ℕ → ℕ → Option String → Handler ℕ
unfolding get_goal_for_org get_workflow_for_goal
confirm_plan sv req workspace_id goal_id token = do
  goal ← get_goal_for_org goal_id workspace_id req.org_id
  found ← get_workflow_for_goal sv goal_id req.org_id
  workflow ← or_raise found 404
  raise_unless (is_awaiting_approval workflow.status) 409
  consume_token sv req workflow.id (token_given token)
  send_task req workflow.id
  modify (set_goal_status goal.id GoalStatus.processing)
  pure workflow.id

-- DELETE /{goal_id}
unfoldable pub cancel_goal : Request → ℕ → ℕ → Handler GoalStatus
unfolding get_goal_for_org
cancel_goal req workspace_id goal_id = do
  goal ← get_goal_for_org goal_id workspace_id req.org_id
  raise_if (is_closed_goal goal.status) 409
  modify (set_goal_status goal.id GoalStatus.cancelled)
  modify (λ d. record d {
    workflows =
        update_where
          (λ w. w.goal_id == goal_id && w.org_id == req.org_id && not (is_ended w.status))
          (λ w. record w { status = WorkflowStatus.cancelled; completed_at = some req.now })
          d.workflows;
  })
  pure GoalStatus.cancelled
