-- ===== src/Approvals/Gate.antt =====
-- What lets a request through the token gate of approve and reject in app/routers/approvals.py.
use legal_ai_copilot.Prelude.{
  ℕ, String, ◌≡◌, true, some, arith, str_eq, inl, inr, Option-cases, ◌==◌, ◌&&◌, ltb,
}
use legal_ai_copilot.Prelude.Table.{select, select_one}
use legal_ai_copilot.Models.{Workflow, ApprovalRequest, WorkflowStatus, ApprovalStatus}
use legal_ai_copilot.Database.{Db}
use legal_ai_copilot.Http.{Request, ok}
use legal_ai_copilot.Services.{Services}
use legal_ai_copilot.Approvals.Endpoints.{hmac_secret, is_ascii, pass_gate}

-- the facts that the gate has checked, for the request that it returns
pub record Passed (sv : Services) (req : Request) (workflow_id : ℕ) (token : String) (d : Db)
    (a : ApprovalRequest) : Type 0 where
  pub workflow : Workflow
  pub found :
      select_one (λ w. w.id == workflow_id && w.org_id == req.org_id) d.workflows ≡ some workflow
  pub awaiting : workflow.status ≡ WorkflowStatus.awaiting_approval
  pub chosen :
      sv.newest_approval (
        select
          (λ a. a.workflow_id == workflow_id && a.org_id == req.org_id && ltb req.now a.expires_at)
          d.approvals)
      ≡ some a
  pub pending : a.status ≡ ApprovalStatus.pending
  pub secret : String
  pub secret_set : hmac_secret req ≡ some secret
  pub ascii : is_ascii token ≡ true
  pub valid :
      str_eq (sv.hmac_sha256 secret (sv.token_data workflow_id req.org_id a.id)) token ≡ true

module _ (sv : Services) (req : Request) (workflow_id : ℕ) (token : String) (d : Db) where
  pub pass_gate_state : (pass_gate sv req workflow_id token d).1 ≡ d
  unfolding pass_gate
  pass_gate_state = ground arith

  pub pass_gate-Passed :
      (a : ApprovalRequest)
      → (pass_gate sv req workflow_id token d).0 ≡ ok a
      → Passed sv req workflow_id token d a
  unfolding pass_gate
  pass_gate-Passed a h =
      elim (Option-cases
        (select_one (λ w. w.id == workflow_id && w.org_id == req.org_id) d.workflows)) [
          | inl absent ↦ ground arith
          | inr (wf, found) ↦ elim (Option-cases (hmac_secret req)) [
            | inl unset ↦ ground arith
            | inr (secret, set) ↦ record {
              workflow = wf;
              found = found;
              awaiting = ground arith;
              chosen = ground arith;
              pending = ground arith;
              secret = secret;
              secret_set = set;
              ascii = ground arith;
              valid = ground arith;
            }
          ]
        ]

  pub pass_gate_lets :
      (a : ApprovalRequest)
      → Passed sv req workflow_id token d a
      → (pass_gate sv req workflow_id token d).0 ≡ ok a
  unfolding pass_gate
  pass_gate_lets a h =
      ground (arith, h.found, h.awaiting, h.chosen, h.pending, h.secret_set, h.ascii, h.valid)
