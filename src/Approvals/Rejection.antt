-- ===== src/Approvals/Rejection.antt =====
-- reject_via_token of app/routers/approvals.py on every branch.
use Prim.Native.String.{count}
use legal_ai_copilot.Prelude.{
  ℕ, ◌≤◌, String, ◌≡◌, true, false, arith, inl, inr, ◌↔◌, ltb, leb, if◌then◌else◌, Bool, List, [],
  ◌∷◌, ◌+◌, ◌==◌, ◌&&◌, some, refl,
}
use legal_ai_copilot.Prelude.Table.{update_where, exists_where}
use legal_ai_copilot.Models.{ApprovalRequest, WorkflowStatus, ApprovalStatus, Action, Workflow}
use legal_ai_copilot.Database.{Db, approval_rejected, approval_escalated}
use legal_ai_copilot.Http.{Request, ok, http, Reply-cases}
use legal_ai_copilot.Services.{Services}
use legal_ai_copilot.Workflows.{current_revision}
use legal_ai_copilot.Approvals.Endpoints.{Decision, pass_gate, reject_via_token}
use legal_ai_copilot.Approvals.Gate.{Passed, pass_gate_state, pass_gate-Passed, pass_gate_lets}
use legal_ai_copilot.Approvals.Outcomes.{decision}

-- the database once the request `a` is rejected, before the workflow moves
abbrev pub refused : Request → ApprovalRequest → String → Db → Db
refused req a reason d = record d {
  approvals =
      update_where (λ x. x.id == a.id)
        (λ x. record x {
          status = ApprovalStatus.rejected;
          decision_timestamp = some req.now;
          actor = req.user_id;
          rejection_reason = some reason;
        })
        d.approvals;
}

-- some action of the workflow was revised three times
abbrev pub is_exhausted : ℕ → Db → Bool
is_exhausted wf d = exists_where (λ a. a.workflow_id == wf && leb 3 a.revision_count) d.actions

pub revisions-lem :
    (wf : ℕ) (rows : List Action)
    → leb 3 (current_revision wf rows)
      ≡ exists_where (λ a. a.workflow_id == wf && leb 3 a.revision_count) rows
unfolding current_revision exists_where
revisions-lem wf [] = refl
revisions-lem wf (a ∷ rows) = ground (arith, revisions-lem wf rows)

abbrev with_status : ℕ → WorkflowStatus → Db → List Workflow
with_status wf status d =
    update_where (λ w. w.id == wf) (λ w. record w { status = status }) d.workflows

-- a workflow that was revised three times is escalated; any other goes back to revision, with the
-- counts of its actions one higher, and no task is queued
abbrev pub moved : Request → ℕ → String → Db → Db
moved req wf reason d =
    if is_exhausted wf d
    then record d {
      workflows = with_status wf WorkflowStatus.escalated d;
      events = approval_escalated wf req.org_id req.user_id ∷ d.events;
    }
    else record d {
      workflows = with_status wf WorkflowStatus.revising d;
      actions =
          update_where (λ a. a.workflow_id == wf)
            (λ a. record a { revision_count = a.revision_count + 1 }) d.actions;
      events = approval_rejected wf req.org_id req.user_id reason ∷ d.events;
    }

pub moved-approvals :
    (req : Request) (wf : ℕ) (reason : String) (d : Db)
    → (moved req wf reason d).approvals ≡ d.approvals
moved-approvals req wf reason d = ground arith

abbrev pub moved_status : ℕ → Db → WorkflowStatus
moved_status wf d = if is_exhausted wf d then WorkflowStatus.escalated else WorkflowStatus.revising

module _ (sv : Services) (req : Request) (wf : ℕ) (token reason : String) (d : Db) where
  pub reject-short :
      ltb (count reason) 20 ≡ true → reject_via_token sv req wf token reason d ≡ (http 422, d)
  unfolding reject_via_token
  reject-short short = ground arith

  pub reject-refused :
      (code : ℕ)
      → (pass_gate sv req wf token d).0 ≡ http code
      → (reject_via_token sv req wf token reason d).1 ≡ d
  unfolding reject_via_token
  reject-refused code h = ground (arith, pass_gate_state sv req wf token d)

  reject-code :
      (code : ℕ)
      → (pass_gate sv req wf token d).0 ≡ http code
      → ltb (count reason) 20 ≡ false
      → reject_via_token sv req wf token reason d ≡ (http code, d)
  unfolding reject_via_token
  reject-code code h long = ground (arith, pass_gate_state sv req wf token d)

  pub reject-passed :
      (a : ApprovalRequest)
      → (pass_gate sv req wf token d).0 ≡ ok a
      → ltb (count reason) 20 ≡ false
      → reject_via_token sv req wf token reason d
        ≡ (ok (decision wf a (moved_status wf d)), moved req wf reason (refused req a reason d))
  unfolding reject_via_token
  reject-passed a h long =
      ground (arith, pass_gate_state sv req wf token d, revisions-lem wf d.actions)

  -- A rejection with a reason of at least 20 characters succeeds exactly when some request passes
  -- the gate. It then marks that request REJECTED with the reason, the user and the time, and
  -- changes no other request; the workflow is escalated if its actions had been revised three
  -- times, and otherwise goes back to revision with the counts of its actions one higher, and no task is
  -- queued.
  pub reject_exact :
      (r : Decision) (d' : Db)
      → 20 ≤ count reason
      → (reject_via_token sv req wf token reason d ≡ (ok r, d')) ↔ (
          (a : ApprovalRequest) × Passed sv req wf token d a
          × (r ≡ decision wf a (moved_status wf d))
          × (d' ≡ moved req wf reason (refused req a reason d)))
  reject_exact r d' long = (forward, backward)
    where
      is_long : ltb (count reason) 20 ≡ false
      is_long = ground arith

      forward :
          reject_via_token sv req wf token reason d ≡ (ok r, d')
          → (a : ApprovalRequest) × Passed sv req wf token d a
            × (r ≡ decision wf a (moved_status wf d))
            × (d' ≡ moved req wf reason (refused req a reason d))
      forward e = elim (Reply-cases (pass_gate sv req wf token d).0) [
        | inl (a, h) ↦ (
          a,
          pass_gate-Passed sv req wf token d a h,
          cc (e, reject-passed a h is_long),
          cc (e, reject-passed a h is_long),
        )
        | inr (code, h) ↦ absurd (cc (e, reject-code code h is_long))
      ]

      backward :
          ((a : ApprovalRequest) × Passed sv req wf token d a
            × (r ≡ decision wf a (moved_status wf d))
            × (d' ≡ moved req wf reason (refused req a reason d)))
          → reject_via_token sv req wf token reason d ≡ (ok r, d')
      backward (a, passed, er, ed) =
          cc (er, ed, reject-passed a (pass_gate_lets sv req wf token d a passed) is_long)
