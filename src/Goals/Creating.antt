-- ===== src/Goals/Creating.antt =====
-- What `create_goal` leaves behind.
use legal_ai_copilot.Prelude.{
  ℕ, String, Bool, true, false, Option, none, some, List, ◌∷◌, ◌≡◌, ◌≢◌, ◌⊎◌, inl, inr, ◌==◌, ◌&&◌,
  arith, Option-cases, eq_self, refl, if◌then◌else◌,
}
use legal_ai_copilot.Prelude.Table.{exists_where, update_where, update_where-miss}
use legal_ai_copilot.Prelude.Text.{truthy}
use legal_ai_copilot.Models.{Goal, Workflow, IntentType, WorkflowStatus, GoalStatus}
use legal_ai_copilot.Database.{Db}
use legal_ai_copilot.Http.{Request, Reply, ok, http}
use legal_ai_copilot.Goals.Endpoints.{set_goal_intent, set_goal_status}
use legal_ai_copilot.Goals.Create.{
  Surroundings, WorkspaceSession, absent, without_documents, with_documents, IntentClassification,
  CreateGoalRequest, CreateGoalResponse, classify_intent, intent_named, sanitize_goal_text,
  session_files, route_goal, create_goal,
}

module _ (s : Surroundings) (req : Request) (p : CreateGoalRequest) (d : Db)
    (unused : exists_where (λ g. g.id == s.goal_id) d.goals ≡ false) where
  abbrev pub goal_of : GoalStatus → Option IntentType → Option String → Goal
  goal_of status intent answer = record {
    id = s.goal_id;
    workspace_id = p.workspace_id;
    org_id = req.org_id;
    goal_text = sanitize_goal_text s.lower p.goal_text;
    status = status;
    intent = intent;
    answer = answer;
  }

  abbrev pub with_goal : Goal → Db
  with_goal g = record d { goals = g ∷ d.goals }

  -- a row with the new id is written in place, before the rows of others
  set_status :
      (status : GoalStatus) (intent : Option IntentType) (old : GoalStatus)
      → set_goal_status s.goal_id status (with_goal (goal_of old intent none))
        ≡ with_goal (goal_of status intent none)
  unfolding update_where
  set_status status intent old = ground (
    arith,
    update_where-miss (λ (g : Goal). g.id == s.goal_id) (λ g. record g { status = status }) d.goals,
    eq_self s.goal_id,
  )

  set_intent :
      (intent : IntentType)
      → set_goal_intent s.goal_id intent (with_goal (goal_of GoalStatus.pending none none))
        ≡ with_goal (goal_of GoalStatus.pending (some intent) none)
  unfolding update_where
  set_intent intent = ground (
    arith,
    update_where-miss (λ (g : Goal). g.id == s.goal_id) (λ g. record g { intent = some intent })
        d.goals,
    eq_self s.goal_id,
  )

  abbrev pub classification : IntentClassification
  classification = classify_intent s.upper s.raw_intent

  abbrev pub running : IntentType → Db
  running intent = with_goal (goal_of GoalStatus.processing (some intent) none)

  pub create-routes :
      (intent : IntentType)
      → intent_named classification.primary_intent ≡ some intent
      → create_goal s req p d ≡ route_goal s req p classification intent (running intent)
  unfolding create_goal
  create-routes intent named =
      ground (
        arith,
        set_intent intent,
        set_status GoalStatus.processing (some intent) GoalStatus.pending,
      )

  abbrev pub reply : GoalStatus → Option String → Option ℕ → CreateGoalResponse
  reply status answer workflow_id = record {
    goal_id = s.goal_id;
    status = status;
    answer = answer;
    workflow_id = workflow_id;
    intent = classification.primary_intent;
    intent_confidence = classification.confidence;
  }

  -- the workflow of the goal: CLASSIFYING, and nothing else filled in
  abbrev pub workflow_of : IntentType → Workflow
  workflow_of intent = record {
    id = s.workflow_id;
    goal_id = s.goal_id;
    workspace_id = p.workspace_id;
    org_id = req.org_id;
    intent = intent;
    intent_confirmed_by_human = false;
    confirmed_intent = none;
    status = WorkflowStatus.classifying;
    result_ref = none;
    error_context = none;
    decision_brief_payload = none;
    created_at = req.now;
    completed_at = none;
  }

  -- REASON and ACT
  abbrev pub has_task : IntentType → Bool
  has_task IntentType.reason = true
  has_task IntentType.act = true
  has_task IntentType.analyze = false
  has_task IntentType.unknown = false

  abbrev pub started : IntentType → Db
  started intent = record (running intent) {
    workflows = workflow_of intent ∷ d.workflows;
    intent_logs =
        record { workflow_id = s.workflow_id; confirmed_intent = intent; lawyer_override = false }
        ∷ d.intent_logs;
    queue = if has_task intent && req.broker_up then s.workflow_id ∷ d.queue else d.queue;
  }

  -- the session that the request names, if it is not empty, and whether its files are found
  abbrev pub IsGiven : String → Type 0
  IsGiven session_id = truthy p.session_id ≡ some session_id

  -- the session is in Redis, or its row has a list of documents
  abbrev pub HasFiles : String → Type 0
  HasFiles session_id =
      (files : List ℕ) × ((s.redis_session session_id ≡ some files)
        ⊎ ((s.redis_session session_id ≡ none)
            × (s.workspace_session session_id ≡ with_documents files)))

  abbrev pub Classified : IntentType → Type 0
  Classified intent = intent_named classification.primary_intent ≡ some intent

  -- The ways in which the request can end: why, its reply, and the tables.
  pub data Ends (r : Reply CreateGoalResponse) (d' : Db) : Type 0 where
    unclassified :
        intent_named classification.primary_intent ≡ none
        → r ≡ http 500
        → d' ≡ with_goal (goal_of GoalStatus.pending none none)
        → Ends r d'
    no_session :
        (intent : IntentType)
        → Classified intent
        → truthy p.session_id ≡ none
        → r ≡ http 400
        → d' ≡ with_goal (goal_of GoalStatus.failed (some intent) none)
        → Ends r d'
    lost_session :
        (intent : IntentType) (session_id : String)
        → Classified intent
        → IsGiven session_id
        → s.redis_session session_id ≡ none
        → s.workspace_session session_id ≡ absent
        → r ≡ http 404
        → d' ≡ running intent
        → Ends r d'
    no_documents :
        (intent : IntentType) (session_id : String)
        → Classified intent
        → IsGiven session_id
        → s.redis_session session_id ≡ none
        → s.workspace_session session_id ≡ without_documents
        → r ≡ http 500
        → d' ≡ running intent
        → Ends r d'
    no_answer :
        (session_id : String)
        → Classified IntentType.analyze
        → IsGiven session_id
        → HasFiles session_id
        → s.final_answer ≡ none
        → r ≡ http 500
        → d' ≡ with_goal (goal_of GoalStatus.failed (some IntentType.analyze) none)
        → Ends r d'
    answers :
        (session_id answer : String)
        → Classified IntentType.analyze
        → IsGiven session_id
        → HasFiles session_id
        → s.final_answer ≡ some answer
        → r ≡ ok (reply GoalStatus.completed (some answer) none)
        → d' ≡ with_goal (goal_of GoalStatus.completed (some IntentType.analyze) (some answer))
        → Ends r d'
    starts :
        (intent : IntentType) (session_id : String)
        → Classified intent
        → intent ≢ IntentType.analyze
        → IsGiven session_id
        → HasFiles session_id
        → r ≡ ok (reply GoalStatus.processing none (some s.workflow_id))
        → d' ≡ started intent
        → Ends r d'

  -- how the search for the files of a session can end
  unfoldable pub Sought : String → Db → Type 0
  Sought session_id e =
      ((files : List ℕ) × HasFiles session_id × (session_files s session_id e ≡ (ok files, e)))
      ⊎ (((s.redis_session session_id ≡ none)
            × (s.workspace_session session_id ≡ absent)
            × (session_files s session_id e ≡ (http 404, e)))
          ⊎ ((s.redis_session session_id ≡ none)
              × (s.workspace_session session_id ≡ without_documents)
              × (session_files s session_id e ≡ (http 500, e))))

  pub session_files-Sought : (session_id : String) (e : Db) → Sought session_id e
  unfolding Sought
  session_files-Sought session_id e = elim (Option-cases (s.redis_session session_id)) [
    | inr (files, found) ↦ inl (files, (files, inl found), ground arith)
    | inl lost ↦ stored (s.workspace_session session_id) refl lost
  ]
    where
      stored :
          (w : WorkspaceSession)
          → s.workspace_session session_id ≡ w
          → s.redis_session session_id ≡ none
          → Sought session_id e
      stored absent w lost = inr (inl (lost, w, ground arith))
      stored without_documents w lost = inr (inr (lost, w, ground arith))
      stored (with_documents files) w lost = inl (files, (files, inr (lost, w)), ground arith)

  abbrev EndsAt : Reply CreateGoalResponse × Db → Type 0
  EndsAt r = Ends r.0 r.1
