-- ===== src/Approvals/Outcomes.antt =====
-- approve_via_token of app/routers/approvals.py on every branch.
use legal_ai_copilot.Prelude.{ℕ, ◌∷◌, String, ◌≡◌, true, false, arith, ◌==◌, some, List}
use legal_ai_copilot.Prelude.Table.{update_where}
use legal_ai_copilot.Models.{ApprovalRequest, WorkflowStatus, ApprovalStatus}
use legal_ai_copilot.Database.{Db, approval_approved}
use legal_ai_copilot.Http.{Request, ok, http}
use legal_ai_copilot.Services.{Services}
use legal_ai_copilot.Approvals.Endpoints.{Decision, pass_gate, approve_via_token}
use legal_ai_copilot.Approvals.Gate.{pass_gate_state}

-- the request `a` and no other is USED, by the user and at the time of the decision
abbrev used : Request → ApprovalRequest → List ApprovalRequest → List ApprovalRequest
used req a =
    update_where (λ x. x.id == a.id)
      (λ x. record x {
        status = ApprovalStatus.used;
        decision_timestamp = some req.now;
        actor = req.user_id;
      })

-- the database once the token of `a` is consumed
abbrev pub consumed : Request → ApprovalRequest → Db → Db
consumed req a d = record d { approvals = used req a d.approvals }

-- … and once the export is queued and the event is emitted
abbrev pub approved : Request → ℕ → ApprovalRequest → Db → Db
approved req workflow_id a d = record d {
  approvals = used req a d.approvals;
  queue = workflow_id ∷ d.queue;
  events = approval_approved workflow_id req.org_id req.user_id ∷ d.events;
}

abbrev pub decision : ℕ → ApprovalRequest → WorkflowStatus → Decision
decision workflow_id a status = record {
  workflow_id = workflow_id;
  approval_id = a.id;
  status = status;
}

module _ (sv : Services) (req : Request) (workflow_id : ℕ) (token : String) (d : Db) where
  pub approve-refused :
      (code : ℕ)
      → (pass_gate sv req workflow_id token d).0 ≡ http code
      → approve_via_token sv req workflow_id token d ≡ (http code, d)
  unfolding approve_via_token
  approve-refused code h = ground (arith, pass_gate_state sv req workflow_id token d)

  pub approve-passed :
      (a : ApprovalRequest)
      → (pass_gate sv req workflow_id token d).0 ≡ ok a
      → req.broker_up ≡ true
      → approve_via_token sv req workflow_id token d
        ≡ (ok (decision workflow_id a WorkflowStatus.executing), approved req workflow_id a d)
  unfolding approve_via_token
  approve-passed a h up = ground (arith, pass_gate_state sv req workflow_id token d)

  pub approve-lost :
      (a : ApprovalRequest)
      → (pass_gate sv req workflow_id token d).0 ≡ ok a
      → req.broker_up ≡ false
      → approve_via_token sv req workflow_id token d ≡ (http 500, consumed req a d)
  unfolding approve_via_token
  approve-lost a h down = ground (arith, pass_gate_state sv req workflow_id token d)
