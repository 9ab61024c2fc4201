-- ===== src/Tests/Fixtures.antt =====
-- A small database, requests of two organisations, and functions in place of the hashes and of the
-- database's ORDER BY.
use Prim.Native.String.{◌++◌}
use legal_ai_copilot.Prelude.{
  ℕ, zero, suc, String, true, false, Option, none, some, List, [], ◌∷◌, ◌≡◌, arith, Among, inl, inr,
  ◌⊎◌, leb, subst, sym, ap, ◌∙◌, ◌≢◌, if◌then◌else◌, Bool-cases,
}
use legal_ai_copilot.Prelude.Table.{IsKey}
use legal_ai_copilot.Models.{
  Goal, Workflow, Action, ApprovalRequest, Brief, DraftPayload, IntentType, WorkflowStatus,
  GoalStatus, ActionType, ActionStatus, ApprovalStatus,
}
use legal_ai_copilot.Database.{Db}
use legal_ai_copilot.Http.{Request}
use legal_ai_copilot.Services.{Services, IsSelecting}
use legal_ai_copilot.Worker.{Outside, Draft}

module _ {A : Type 0} (key : A → ℕ) where
  abbrev later_of : A → Option A → Option A
  later_of x none = some x
  later_of x (some y) = if leb (key y) (key x) then some x else some y

  abbrev pub latest : List A → Option A
  latest [] = none
  latest (x ∷ xs) = later_of x (latest xs)

  later_of-cases : (x : A) (o : Option A) (a : A) → later_of x o ≡ some a → (a ≡ x) ⊎ (o ≡ some a)
  later_of-cases x none a e = ground arith
  later_of-cases x (some y) a e = ground arith

  pub latest-Among : (rows : List A) (a : A) → latest rows ≡ some a → Among a rows
  latest-Among [] a e = absurd (cc e)
  latest-Among (x ∷ xs) a e = elim (later_of-cases x (latest xs) a e) [
    | inl same ↦ inl same
    | inr rest ↦ inr (latest-Among xs a rest)
  ]

  abbrev pub insert : A → List A → List A
  insert a [] = a ∷ []
  insert a (x ∷ xs) = let rest = insert a xs in if leb (key x) (key a) then a ∷ x ∷ xs else x ∷ rest

  abbrev pub latest_first : List A → List A
  latest_first [] = []
  latest_first (x ∷ xs) = insert x (latest_first xs)

  insert-Among : (b : A) (rows : List A) (a : A) → Among a (insert b rows) → (a ≡ b) ⊎ Among a rows
  insert-Among b [] a (inl e) = inl e
  insert-Among b [] a (inr m) = absurd m
  insert-Among b (x ∷ xs) a m = elim (Bool-cases (leb (key x) (key b))) [
    | inl first ↦ subst (λ t. Among a (if t then b ∷ x ∷ xs else x ∷ insert b xs)) first m
    | inr later ↦ elim (subst (λ t. Among a (if t then b ∷ x ∷ xs else x ∷ insert b xs)) later m) [
      | inl e ↦ inr (inl e)
      | inr m' ↦ elim (insert-Among b xs a m') [ inl e ↦ inl e | inr m'' ↦ inr (inr m'') ]
    ]
  ]

  pub latest_first-Among : (rows : List A) (a : A) → Among a (latest_first rows) → Among a rows
  latest_first-Among [] a m = m
  latest_first-Among (x ∷ xs) a m = elim (insert-Among x (latest_first xs) a m) [
    | inl e ↦ inl e
    | inr m' ↦ inr (latest_first-Among xs a m')
  ]

-- a number in unary
abbrev ticks : ℕ → String
ticks zero = ""
ticks (suc n) = "|" ++ ticks n

abbrev pub services : Services
services = record {
  hmac_sha256 = λ key text. key ++ text;
  sha256 = λ text. "#" ++ text;
  upper = λ text. text;
  r2_key =
      λ workflow_id action_id. "drafts/" ++ ticks workflow_id ++ "/" ++ ticks action_id ++ ".docx";
  token_data = λ workflow_id org_id approval_id.
      ticks workflow_id ++ "::" ++ ticks org_id ++ "::" ++ ticks approval_id;
  newest_approval = latest (λ a. a.created_at);
  newest_first = latest_first (λ a. a.created_at);
  newest_workflow = latest (λ w. w.created_at);
  first_action = latest (λ a. a.id);
}

pub services-IsSelecting : IsSelecting services
services-IsSelecting = record {
  newest_approval-Among = latest-Among (λ a. a.created_at);
  newest_first-Among = latest_first-Among (λ a. a.created_at);
  newest_workflow-Among = latest-Among (λ w. w.created_at);
  first_action-Among = latest-Among (λ a. a.id);
}

abbrev pub lawyer : Request
lawyer = record { org_id = 1; user_id = some 7; now = 1000; secret = some "key"; broker_up = true }

abbrev pub stranger : Request
stranger = record {
  org_id = 2;
  user_id = some 8;
  now = 1000;
  secret = some "key";
  broker_up = true;
}

-- the token of approval request 1 of workflow 1
abbrev pub token : String
token = "key|::|::|"

abbrev pub reason : String
reason = "The dates in the notice are wrong."

abbrev pub brief : Brief
brief = record {
  summary = "File a notice";
  recommended_actions =
      record { action_type = "SEND_NOTICE"; description = "Notify"; urgency = 500000 } ∷ [];
  verification_checklist = "Check the date" ∷ [];
  proceed_recommended = true;
  confidence = 900000;
}

abbrev pub payload : DraftPayload
payload = record {
  draft_text = "Dear Sir";
  source_citations = [];
  grounding_score = 900000;
  missing_info = "address" ∷ "date" ∷ [];
  verification_checklist = [];
  rejection_reason = none;
  revision_number = none;
}

abbrev pub workflow : ℕ → WorkflowStatus → Workflow
workflow id status = record {
  id = id;
  goal_id = 1;
  workspace_id = 1;
  org_id = 1;
  intent = IntentType.act;
  intent_confirmed_by_human = false;
  confirmed_intent = none;
  status = status;
  result_ref = none;
  error_context = none;
  decision_brief_payload = some brief;
  created_at = 10;
  completed_at = none;
}

abbrev pub foreign : Workflow
foreign = record (workflow 2 WorkflowStatus.awaiting_approval) { org_id = 2; goal_id = 2 }

abbrev pub action : ℕ → Action
action revisions = record {
  id = 1;
  workflow_id = 1;
  org_id = 1;
  action_type = ActionType.send_notice;
  description = "Notify";
  urgency_score = 500000;
  status = ActionStatus.awaiting_approval;
  draft_payload = some payload;
  deadline_id = none;
  revision_count = revisions;
  task_order = 0;
}

abbrev pub approval : ℕ → ApprovalStatus → ApprovalRequest
approval id status = record {
  id = id;
  workflow_id = 1;
  action_id = 1;
  org_id = 1;
  token_hash = "#key|::|::|";
  status = status;
  actor = none;
  decision_timestamp = none;
  rejection_reason = none;
  expires_at = 5000;
  created_at = id;
}

abbrev pub goal : GoalStatus → Goal
goal status = record {
  id = 1;
  workspace_id = 1;
  org_id = 1;
  goal_text = "Notify";
  status = status;
  intent = none;
  answer = none;
}

-- workflow 1 with one action, one approval request and one goal, and a workflow of another
-- organisation
abbrev pub db : WorkflowStatus → ℕ → ApprovalStatus → Db
db ws revisions status = record {
  goals = goal GoalStatus.processing ∷ [];
  workflows = workflow 1 ws ∷ foreign ∷ [];
  actions = action revisions ∷ [];
  approvals = approval 1 status ∷ [];
  deadlines = [];
  findings = [];
  intent_logs = [];
  queue = [];
  events = [];
}

-- workflow 1 awaits approval, and its request is pending
abbrev pub waiting : Db
waiting = db WorkflowStatus.awaiting_approval 0 ApprovalStatus.pending

abbrev pub draft : Draft
draft = record {
  draft_text = "Dear Sir";
  source_citations = [];
  grounding_score = 900000;
  missing_info = [];
}

-- what the models and the store answer: an intent with its confidence, and the scores of a search
abbrev pub outside : Option (IntentType × ℕ) → Option (List ℕ) → Outside
outside classification retrieval = record {
  classification = classification;
  retrieval = retrieval;
  brief_structured = none;
  brief_fallback = some brief;
  draft_structured = none;
  draft_recovered = none;
  draft_plain = some draft;
  reranked = true;
  docx_built = true;
  uploaded = true;
  fresh_id = λ k. suc (suc k);
  now = 2000;
}

-- a table of two rows with different keys
pub IsKey-two : {A B : Type 0} (key : A → B) (x y : A) → key x ≢ key y → IsKey key (x ∷ y ∷ [])
IsKey-two key x y differ a b (inl e) (inl f) same = e ∙ sym f
IsKey-two key x y differ a b (inl e) (inr (inl f)) same =
    absurd (differ (sym (ap key e) ∙ same ∙ ap key f))
IsKey-two key x y differ a b (inr (inl e)) (inl f) same =
    absurd (differ (sym (ap key f) ∙ sym same ∙ ap key e))
IsKey-two key x y differ a b (inr (inl e)) (inr (inl f)) same = e ∙ sym f
IsKey-two key x y differ a b (inl e) (inr (inr m)) same = absurd m
IsKey-two key x y differ a b (inr (inl e)) (inr (inr m)) same = absurd m
IsKey-two key x y differ a b (inr (inr m)) mb same = absurd m

pub IsKey-one : {A B : Type 0} (key : A → B) (x : A) → IsKey key (x ∷ [])
IsKey-one key x a b (inl e) (inl f) same = e ∙ sym f
IsKey-one key x a b (inl e) (inr m) same = absurd m
IsKey-one key x a b (inr m) mb same = absurd m
