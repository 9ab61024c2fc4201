-- ===== src/Lifecycle/Replay.antt =====
-- An approval token is good for one approval, whatever happens in between.
use legal_ai_copilot.Prelude.{
  ℕ, String, List, [], ◌∷◌, ◌≡◌, ◌≢◌, refl, Among, Bool-cases, inl, inr, eq_self,
}
use legal_ai_copilot.Prelude.Table.{Among-select, Among-update_where-hit}
use legal_ai_copilot.Models.{ApprovalRequest}
use legal_ai_copilot.Database.{Db}
use legal_ai_copilot.Http.{Request, ok, Reply-cases}
use legal_ai_copilot.Services.{Services, IsSelecting}
use legal_ai_copilot.Approvals.{
  Decision, consume, unexpired_for, same_approval, pass_gate, approve_via_token,
}
use legal_ai_copilot.Approvals.Gate.{Passed, pass_gate-Passed}
use legal_ai_copilot.Approvals.Outcomes.{approve-refused, approve-passed, approve-lost, approved}
use legal_ai_copilot.Lifecycle.Ops.{Op, perform, run}
use legal_ai_copilot.Lifecycle.Decisions.{HasKey, perform-HasKey, run-decided}
use legal_ai_copilot.Lifecycle.OpenChange.{is_decided}

-- what an approval that succeeded has done
record Approval (sv : Services) (req : Request) (wf : ℕ) (token : String) (d : Db) (r : Decision)
    : Type 0 where
  pub request : ApprovalRequest
  pub passed : Passed sv req wf token d request
  pub names : r.approval_id ≡ request.id
  pub state : (approve_via_token sv req wf token d).1 ≡ approved req wf request d

module _ (sv : Services) (req : Request) (wf : ℕ) (token : String) (d : Db) (r : Decision)
    (e : (approve_via_token sv req wf token d).0 ≡ ok r) where
  approve_via_token-Approval : Approval sv req wf token d r
  approve_via_token-Approval = elim (Reply-cases (pass_gate sv req wf token d).0) [
    | inr (code, h) ↦ absurd (cc (e, approve-refused sv req wf token d code h))
    | inl (a, h) ↦ elim (Bool-cases req.broker_up) [
      | inr down ↦ absurd (cc (e, approve-lost sv req wf token d a h down))
      | inl up ↦
          let whole = approve-passed sv req wf token d a h up in
          record {
            request = a;
            passed = pass_gate-Passed sv req wf token d a h;
            names = cc (e, whole);
            state = cc whole;
          }
    ]
  ]

run-HasKey :
    (sv : Services) (sel : IsSelecting sv) (ops : List Op) (d : Db)
    → HasKey d
    → HasKey (run sv ops d)
unfolding run
run-HasKey sv sel [] d key = key
run-HasKey sv sel (op ∷ ops) d key =
    run-HasKey sv sel ops (perform sv op d) (perform-HasKey sv sel op d key)

gate-Among :
    (sv : Services) (sel : IsSelecting sv) (req : Request) (wf : ℕ) (token : String) (d : Db)
    (a : ApprovalRequest)
    → Passed sv req wf token d a
    → Among a d.approvals
gate-Among sv sel req wf token d a h =
    (Among-select (unexpired_for wf req.org_id req.now) d.approvals a
      (sel.newest_approval-Among _ a h.chosen)).0

-- A request that has approved once never approves again: after a successful approval and any
-- sequence of operations, a further approval that succeeds is one of another request. The ids of
-- the requests must be unique, and the database must return rows of its queries.
pub approve_once :
    (sv : Services) (req req' : Request) (wf wf' : ℕ) (token token' : String) (d : Db)
    (ops : List Op) (r r' : Decision)
    → IsSelecting sv
    → HasKey d
    → let d' = run sv ops (approve_via_token sv req wf token d).1 in
      (approve_via_token sv req wf token d).0 ≡ ok r
      → (approve_via_token sv req' wf' token' d').0 ≡ ok r'
      → r'.approval_id ≢ r.approval_id
unfolding perform is_decided
approve_once sv req req' wf wf' token token' d ops r r' sel key e e' clash =
    let d₁ = (approve_via_token sv req wf token d).1 in
    let first = approve_via_token-Approval sv req wf token d r e in
    let second = approve_via_token-Approval sv req' wf' token' (run sv ops d₁) r' e' in
    let spent = consume req.user_id req.now first.request in
    let there : Among spent d₁.approvals = rw first.state (
      Among-update_where-hit (same_approval first.request) (consume req.user_id req.now) d.approvals
        first.request (gate-Among sv sel req wf token d first.request first.passed)
        (eq_self first.request.id)) in
    let key₁ = perform-HasKey sv sel (Op.approve req wf token) d key in
    let still = run-decided sv ops d₁ spent sel key₁ there refl in
    let again = gate-Among sv sel req' wf' token' (run sv ops d₁) second.request second.passed in
    let same_row : second.request ≡ spent =
      run-HasKey sv sel ops d₁ key₁ second.request spent again still
        (cc (second.names, first.names, clash)) in
    absurd (cc (second.passed.pending, same_row))
