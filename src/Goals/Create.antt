-- ===== src/Goals/Create.antt =====
-- app/routers/goals.py: `_classify_intent` and `create_goal`, with `sanitize_goal_text` of
-- app/utils. A write that the code commits stays, whatever is raised after it.
use legal_ai_copilot.Prelude.{
  ℕ, ℤ, pos, negsuc, String, Bool, true, false, ◌||◌, Option, none, some, List, [], ◌∷◌, leb, ◌==◌,
  str_eq, if◌then◌else◌,
}
use legal_ai_copilot.Prelude.Table.{update_where}
use legal_ai_copilot.Prelude.Text.{slice, truthy, occurs}
use legal_ai_copilot.Models.{Goal, Workflow, IntentType, WorkflowStatus, GoalStatus}
use legal_ai_copilot.Database.{Db, dispatch}
use legal_ai_copilot.Http.{Request, Handler, pure, raise, or_raise, modify, ◌>>=◌, ◌>>◌}
use legal_ai_copilot.Goals.Endpoints.{set_goal_intent, set_goal_status}

abbrev pub forbidden_phrases : List String
forbidden_phrases =
    "ignore previous" ∷ "forget instructions" ∷ "system prompt" ∷ "output all" ∷ "bypass"
    ∷ "disregard" ∷ "print instructions" ∷ []

unfoldable pub occurs_any : List String → String → Bool
unfolding occurs
occurs_any [] text = false
occurs_any (phrase ∷ phrases) text = occurs phrase text || occurs_any phrases text

-- `lower` is `str.lower`
unfoldable pub sanitize_goal_text : (String → String) → String → String
unfolding occurs_any slice
sanitize_goal_text lower text =
    if occurs_any forbidden_phrases (lower text)
    then "Provide a safe, default legal analysis of the documents."
    else slice 2000 text

-- the object that the model's answer is parsed to, where a key may be missing; no object is an
-- exception of the call, of the parser or of a conversion
pub record RawIntent : Type 0 where
  pub primary_intent : Option String
  pub confidence : Option ℤ

pub record IntentClassification : Type 0 where
  pub primary_intent : String
  pub confidence : ℕ

-- `min(max(value, 0.0), 1.0)`, in millionths
abbrev pub clamp_unit : ℤ → ℕ
clamp_unit (pos n) = if leb n 1000000 then n else 1000000
clamp_unit (negsuc n) = 0

abbrev pub get_or {ℓ} : {A : Type ℓ} → Option A → A → A
get_or none d = d
get_or (some a) d = a

-- `upper` is `str.upper`
unfoldable pub classify_intent : (String → String) → Option RawIntent → IntentClassification
classify_intent upper none = record { primary_intent = "ANALYZE"; confidence = 0 }
classify_intent upper (some raw) = record {
  primary_intent = upper (get_or raw.primary_intent "ANALYZE");
  confidence = clamp_unit (get_or raw.confidence (pos 500000));
}

-- `IntentType(text)`
abbrev pub intent_named : String → Option IntentType
intent_named t =
    if str_eq t "ANALYZE"
    then some IntentType.analyze
    else if str_eq t "REASON"
    then some IntentType.reason
    else if str_eq t "ACT"
    then some IntentType.act
    else if str_eq t "UNKNOWN"
    then some IntentType.unknown
    else none

-- the session's files in Redis; else those of the row in `workspace_sessions`, whose
-- `document_subset` may be NULL
pub data WorkspaceSession : Type 0 where
  absent : WorkspaceSession
  without_documents : WorkspaceSession
  with_documents : List ℕ → WorkspaceSession

-- what the request meets outside: the model, the two stores of sessions, the search with its
-- answer, and whether the broker takes a task
pub record Surroundings : Type 0 where
  pub lower : String → String
  pub upper : String → String
  pub raw_intent : Option RawIntent
  pub redis_session : String → Option (List ℕ)
  pub workspace_session : String → WorkspaceSession
  pub final_answer : Option String
  pub goal_id : ℕ
  pub workflow_id : ℕ

pub record CreateGoalRequest : Type 0 where
  pub workspace_id : ℕ
  pub goal_text : String
  pub session_id : Option String

pub record CreateGoalResponse : Type 0 where
  pub goal_id : ℕ
  pub status : GoalStatus
  pub answer : Option String
  pub workflow_id : Option ℕ
  pub intent : String
  pub intent_confidence : ℕ

abbrev pub insert_goal : Goal → Db → Db
insert_goal g d = record d { goals = g ∷ d.goals }

abbrev pub insert_workflow : Workflow → Db → Db
insert_workflow w d = record d { workflows = w ∷ d.workflows }

abbrev pub new_goal : Surroundings → Request → CreateGoalRequest → Goal
new_goal s req p = record {
  id = s.goal_id;
  workspace_id = p.workspace_id;
  org_id = req.org_id;
  goal_text = sanitize_goal_text s.lower p.goal_text;
  status = GoalStatus.pending;
  intent = none;
  answer = none;
}

abbrev pub new_workflow : Surroundings → Request → CreateGoalRequest → IntentType → Workflow
new_workflow s req p intent = record {
  id = s.workflow_id;
  goal_id = s.goal_id;
  workspace_id = p.workspace_id;
  org_id = req.org_id;
  intent = intent;
  intent_confirmed_by_human = false;
  confirmed_intent = none;
  status = WorkflowStatus.classifying;
  result_ref = none;
  error_context = none;
  decision_brief_payload = none;
  created_at = req.now;
  completed_at = none;
}

-- the document ids of the session; a NULL `document_subset` raises a TypeError
abbrev pub session_files : Surroundings → String → Handler (List ℕ)
session_files s session_id = elim (s.redis_session session_id) [
  | some files ↦ pure files
  | none ↦ elim (s.workspace_session session_id) [
    | absent ↦ raise 404
    | without_documents ↦ raise 500
    | with_documents files ↦ pure files
  ]
]

abbrev pub answered : ℕ → String → Db → Db
answered goal_id answer d = record d {
  goals =
      update_where (λ g. g.id == goal_id)
        (λ g. record g { answer = some answer; status = GoalStatus.completed }) d.goals;
}

abbrev pub fail_goal : {A : Type 0} → ℕ → ℕ → Handler A
fail_goal goal_id code = modify (set_goal_status goal_id GoalStatus.failed) >> raise code

unfoldable pub answer_goal : Surroundings → IntentClassification → Handler CreateGoalResponse
answer_goal s c = elim s.final_answer [
  | none ↦ fail_goal s.goal_id 500
  | some answer ↦ do
    modify (answered s.goal_id answer)
    pure (record {
      goal_id = s.goal_id;
      status = GoalStatus.completed;
      answer = some answer;
      workflow_id = none;
      intent = c.primary_intent;
      intent_confidence = c.confidence;
    })
]

-- `classification.primary_intent in ("REASON", "ACT")`
abbrev pub is_queued : IntentType → Bool
is_queued IntentType.reason = true
is_queued IntentType.act = true
is_queued _ = false

-- an error of the broker is logged and passed over
abbrev pub try_dispatch : Request → ℕ → IntentType → Db → Db
try_dispatch req workflow_id intent d =
    if is_queued intent then (if req.broker_up then dispatch workflow_id d else d) else d

abbrev pub log_intent : ℕ → IntentType → Db → Db
log_intent workflow_id intent d = record d {
  intent_logs =
      record { workflow_id = workflow_id; confirmed_intent = intent; lawyer_override = false }
      ∷ d.intent_logs;
}

unfoldable pub start_goal :
    Surroundings
    → Request
    → CreateGoalRequest
    → IntentClassification
    → IntentType
    → Handler CreateGoalResponse
start_goal s req p c intent = do
  modify (insert_workflow (new_workflow s req p intent))
  modify (log_intent s.workflow_id intent)
  modify (try_dispatch req s.workflow_id intent)
  pure (record {
    goal_id = s.goal_id;
    status = GoalStatus.processing;
    answer = none;
    workflow_id = some s.workflow_id;
    intent = c.primary_intent;
    intent_confidence = c.confidence;
  })

abbrev pub is_analyze : IntentType → Bool
is_analyze IntentType.analyze = true
is_analyze _ = false

-- what follows the classification
unfoldable pub route_goal :
    Surroundings
    → Request
    → CreateGoalRequest
    → IntentClassification
    → IntentType
    → Handler CreateGoalResponse
unfolding answer_goal start_goal
route_goal s req p c intent = elim (truthy p.session_id) [
  | none ↦ fail_goal s.goal_id 400
  | some session_id ↦ do
    files ← session_files s session_id
    elim (is_analyze intent) [ true ↦ answer_goal s c | false ↦ start_goal s req p c intent ]
]

-- An intent outside the enumeration raises a ValueError.
unfoldable pub create_goal : Surroundings → Request → CreateGoalRequest → Handler CreateGoalResponse
unfolding sanitize_goal_text classify_intent route_goal
create_goal s req p = do
  modify (insert_goal (new_goal s req p))
  let c = classify_intent s.upper s.raw_intent
  intent ← or_raise (intent_named c.primary_intent) 500
  modify (set_goal_intent s.goal_id intent)
  modify (set_goal_status s.goal_id GoalStatus.processing)
  route_goal s req p c intent
