-- ===== src/Services.antt =====
-- What the code takes from outside the repository: hashes, UUID texts, and the database's choice
-- for ORDER BY … DESC LIMIT 1, which is free among rows with equal keys.
use legal_ai_copilot.Prelude.{ℕ, String, ◌≡◌, Option, some, List}
use legal_ai_copilot.Prelude.{Among}
use legal_ai_copilot.Models.{Workflow, Action, ApprovalRequest}

pub record Services : Type 0 where
  -- `hmac.new(key, data, hashlib.sha256).hexdigest()`
  pub hmac_sha256 : String → String → String
  -- `hashlib.sha256(text).hexdigest()`
  pub sha256 : String → String
  -- `str.upper`
  pub upper : String → String
  -- `f"drafts/{workflow_id}/{action.id}.docx"`
  pub r2_key : ℕ → ℕ → String
  -- `f"{workflow_id}::{org_id}::{approval_id}"`
  pub token_data : ℕ → ℕ → ℕ → String
  -- ORDER BY created_at DESC LIMIT 1
  pub newest_approval : List ApprovalRequest → Option ApprovalRequest
  -- ORDER BY created_at DESC
  pub newest_first : List ApprovalRequest → List ApprovalRequest
  -- ORDER BY created_at DESC LIMIT 1
  pub newest_workflow : List Workflow → Option Workflow
  -- ORDER BY task_order LIMIT 1
  pub first_action : List Action → Option Action

-- A row that the database returns is one of the rows of the query.
pub record IsSelecting (sv : Services) : Type 0 where
  pub newest_approval-Among :
      (rows : List ApprovalRequest) (a : ApprovalRequest)
      → sv.newest_approval rows ≡ some a
      → Among a rows
  pub newest_first-Among :
      (rows : List ApprovalRequest) (a : ApprovalRequest)
      → Among a (sv.newest_first rows)
      → Among a rows
  pub newest_workflow-Among :
      (rows : List Workflow) (w : Workflow) → sv.newest_workflow rows ≡ some w → Among w rows
  pub first_action-Among :
      (rows : List Action) (a : Action) → sv.first_action rows ≡ some a → Among a rows
