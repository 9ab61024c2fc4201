-- ===== src/Lifecycle/Decisions.antt =====
-- An approval request that was decided, by USED or REJECTED, stays as it is, whatever happens next.
use legal_ai_copilot.Prelude.{
  ℕ, String, Bool, true, false, Option, none, some, List, [], ◌∷◌, ℤ, ◌≡◌, refl, arith, Among,
  Bool-cases, Option-cases, inl, inr, ◌⊎◌, ◌==◌, ◌&&◌, ltb, ap,
}
use legal_ai_copilot.Prelude.Table.{
  select, select_one, update_where, IsKey, Among-select, Among-select_one,
}
use legal_ai_copilot.Models.{ApprovalRequest, ApprovalStatus, is_awaiting_approval, is_pending}
use legal_ai_copilot.Database.{Db}
use legal_ai_copilot.Http.{Request, Reply-cases}
use legal_ai_copilot.Services.{Services, IsSelecting}
use legal_ai_copilot.Approvals.{
  is_reissuable, add_hours, expiry_hours, refuse, reopen, hmac_secret, unexpired_for, pass_gate,
  approve_via_token, reject_via_token, reissue_token,
}
use legal_ai_copilot.Approvals.Gate.{Passed, pass_gate-Passed}
use Prim.Native.String.{count}
use legal_ai_copilot.Goals.{
  confirm_plan, consume_token, token_row, token_given, mark_used, confirm_intent, cancel_goal,
}
use legal_ai_copilot.Approvals.Rejection.{
  moved-approvals, reject-short, reject-refused, reject-passed,
}
use legal_ai_copilot.Approvals.Outcomes.{approve-refused, approve-passed, approve-lost}
use legal_ai_copilot.ActionAgent.{
  confirm_brief, approve_workflow, persist_edits, reject_workflow, annotate_primary,
}
use legal_ai_copilot.Cron.{is_overdue, expire, expire_stale_approvals, expire_stale_ambiguity}
use legal_ai_copilot.Worker.{record_retrieval, write_draft}
use legal_ai_copilot.Worker.Invariant.{KeptByWrites, process_workflow-keeps}
use legal_ai_copilot.Lifecycle.Ops.{Op, perform, run}
use legal_ai_copilot.Lifecycle.OpenChange.{
  is_decided, OpenChange, same, update, OpenChange-IsKey, OpenChange-decided, update_row,
}

pending-undecided : (s : ApprovalStatus) → is_pending s ≡ true → is_decided s ≡ false
unfolding is_decided
pending-undecided s h = ground arith

reissuable-undecided : (s : ApprovalStatus) → is_reissuable s ≡ true → is_decided s ≡ false
unfolding is_decided
reissuable-undecided s h = ground arith

-- `confirm_plan` touches the table of approvals only by consuming the token
confirm_plan-approvals :
    (sv : Services) (req : Request) (ws goal : ℕ) (token : Option String) (d : Db)
    → ((confirm_plan sv req ws goal token d).1.approvals ≡ d.approvals)
      ⊎ ((wf : ℕ) × ((confirm_plan sv req ws goal token d).1.approvals
            ≡ (consume_token sv req wf (token_given token) d).1.approvals))
unfolding confirm_plan
confirm_plan-approvals sv req ws goal token d =
    elim (Option-cases (
      sv.newest_workflow (select (λ w. w.goal_id == goal && w.org_id == req.org_id) d.workflows))) [
        | inl absent ↦ inl (ground arith)
        | inr (wf, found) ↦
            elim (Option-cases (
              select_one (λ g. g.id == goal && g.workspace_id == ws && g.org_id == req.org_id)
                d.goals)) [
                  | inl no_goal ↦ inl (ground arith)
                  | inr (g, found_goal) ↦ elim (Bool-cases (is_awaiting_approval wf.status)) [
                    | inl waits ↦ inr (wf.id, ground arith)
                    | inr other ↦ inl (ground arith)
                  ]
                ]
      ]

abbrev pub HasKey : Db → Type 0
HasKey d = IsKey (λ (a : ApprovalRequest). a.id) d.approvals

module _ (sv : Services) (sel : IsSelecting sv) (req : Request) (d : Db) (key : HasKey d) where
  -- the row that passed the gate is open, and its update by key is a change of open rows
  passed-change :
      (wf : ℕ) (token : String) (a : ApprovalRequest) (f : ApprovalRequest → ApprovalRequest)
      → Passed sv req wf token d a
      → ((x : ApprovalRequest) → (f x).id ≡ x.id)
      → OpenChange d.approvals (update_where (λ r. r.id == a.id) f d.approvals)
  passed-change wf token a f h keep =
      update_row d.approvals _ a f key
        (Among-select (unexpired_for wf req.org_id req.now) d.approvals a
          (sel.newest_approval-Among _ a h.chosen)).0
        (pending-undecided a.status (ap is_pending h.pending)) keep refl

  approve-change :
      (wf : ℕ) (token : String)
      → OpenChange d.approvals (approve_via_token sv req wf token d).1.approvals
  approve-change wf token = elim (Reply-cases (pass_gate sv req wf token d).0) [
    | inl (a, h) ↦ elim (Bool-cases req.broker_up) [
      | inl up ↦
          rw (approve-passed sv req wf token d a h up)
            (passed-change wf token a _ (pass_gate-Passed sv req wf token d a h) (λ x. refl))
      | inr down ↦
          rw (approve-lost sv req wf token d a h down)
            (passed-change wf token a _ (pass_gate-Passed sv req wf token d a h) (λ x. refl))
    ]
    | inr (code, h) ↦ rw (approve-refused sv req wf token d code h) (same refl)
  ]

  reject-change :
      (wf : ℕ) (token reason : String)
      → OpenChange d.approvals (reject_via_token sv req wf token reason d).1.approvals
  reject-change wf token reason = elim (Reply-cases (pass_gate sv req wf token d).0) [
    | inl (a, h) ↦ elim (Bool-cases (ltb (count reason) 20)) [
      | inl short ↦ rw (reject-short sv req wf token reason d short) (same refl)
      | inr long ↦ rw (reject-passed sv req wf token reason d a h long) (
          rw moved-approvals (
            passed-change wf token a (refuse req.user_id req.now reason)
              (pass_gate-Passed sv req wf token d a h) (λ x. refl)))
    ]
    | inr (code, h) ↦ rw (reject-refused sv req wf token reason d code h) (same refl)
  ]

  reissue-change :
      (is_admin : Bool) (id : ℕ) (hours : Option ℤ)
      → OpenChange d.approvals (reissue_token sv req is_admin id hours d).1.approvals
  unfolding reissue_token
  reissue-change is_admin id hours =
      elim (Option-cases (select_one (λ a. a.id == id && a.org_id == req.org_id) d.approvals)) [
        | inl absent ↦ same (ground arith)
        | inr (a, found) ↦ elim (Bool-cases (is_admin && is_reissuable a.status)) [
          | inl may ↦ elim (Option-cases (hmac_secret req)) [
            | inl unset ↦ same (ground arith)
            | inr (secret, set) ↦
                update_row d.approvals _ a
                  (reopen
                    (sv.sha256
                      (sv.hmac_sha256 secret (sv.token_data a.workflow_id req.org_id a.id)))
                    (add_hours req.now (expiry_hours hours)))
                  key (Among-select_one _ d.approvals a found).0
                  (reissuable-undecided a.status (ground arith)) (λ x. refl) (ground arith)
          ]
          | inr may_not ↦ same (ground arith)
        ]
      ]

  consume_token-change :
      (wf : ℕ) (token : Option String)
      → OpenChange d.approvals (consume_token sv req wf token d).1.approvals
  unfolding consume_token
  consume_token-change wf none = same refl
  consume_token-change wf (some token) =
      elim (Option-cases (select_one (token_row sv req wf token) d.approvals)) [
        | inl absent ↦ same (ground arith)
        | inr (a, found) ↦
            let (m, hit) = Among-select_one (token_row sv req wf token) d.approvals a found in
            update_row d.approvals _ a mark_used key m (pending-undecided a.status (ground arith))
              (λ x. refl) (ground arith)
      ]

  confirm_plan-change :
      (ws goal : ℕ) (token : Option String)
      → OpenChange d.approvals (confirm_plan sv req ws goal token d).1.approvals
  confirm_plan-change ws goal token = elim (confirm_plan-approvals sv req ws goal token d) [
    | inl e ↦ same e
    | inr (wf, e) ↦ rw e (consume_token-change wf (token_given token))
  ]

pub worker-writes :
    (sv : Services) (rows : List ApprovalRequest) → KeptByWrites (λ d. d.approvals ≡ rows) sv
unfolding write_draft
worker-writes sv rows = record {
  status = λ wf s d h. h;
  log = λ wf i d h. h;
  retrieval = λ reranked wf found d h. unfold record_retrieval in ground arith;
  brief = λ wf b d h. h;
  rows = λ wf fresh recs d h. h;
  draft = λ wf p d h. ground arith;
  export = λ wf now action d h. h;
  failure = λ wf d h. h;
}

-- Every operation changes the table of approvals by an update of open rows at most.
pub perform-change :
    (sv : Services) (sel : IsSelecting sv) (op : Op) (d : Db)
    → HasKey d
    → OpenChange d.approvals (perform sv op d).approvals
unfolding perform
perform-change sv sel (Op.approve req wf token) d key = approve-change sv sel req d key wf token
perform-change sv sel (Op.reject req wf token reason) d key =
    reject-change sv sel req d key wf token reason
perform-change sv sel (Op.reissue req is_admin id hours) d key =
    reissue-change sv sel req d key is_admin id hours
perform-change sv sel (Op.confirm_brief_op req wf proceed) d key =
    same (unfold confirm_brief in ground arith)
perform-change sv sel (Op.approve_draft req wf draft answers) d key =
    same (unfold approve_workflow persist_edits in ground arith)
perform-change sv sel (Op.reject_draft req wf reason) d key =
    same (unfold reject_workflow annotate_primary in ground arith)
perform-change sv sel (Op.confirm_intent_op req ws goal text) d key =
    same (unfold confirm_intent in ground arith)
perform-change sv sel (Op.confirm_plan_op req ws goal token) d key =
    confirm_plan-change sv sel req d key ws goal token
perform-change sv sel (Op.cancel req ws goal) d key = same (unfold cancel_goal in ground arith)
perform-change sv sel (Op.expire_approvals now) d key =
    update (is_overdue now) expire (λ x m hit. pending-undecided x.status (ground arith))
      (λ x. refl) (unfold expire_stale_approvals in refl)
perform-change sv sel (Op.expire_ambiguity now) d key = same (unfold expire_stale_ambiguity in refl)
perform-change sv sel (Op.process o wf pre) d key = same (
    process_workflow-keeps (λ e. e.approvals ≡ d.approvals) sv (worker-writes sv d.approvals) o wf
      pre d refl)

pub perform-HasKey :
    (sv : Services) (sel : IsSelecting sv) (op : Op) (d : Db) → HasKey d → HasKey (perform sv op d)
perform-HasKey sv sel op d key =
    OpenChange-IsKey d.approvals (perform sv op d).approvals (perform-change sv sel op d key) key

-- Whatever operations follow, in any order and number, an approval request that is USED or
-- REJECTED stays in the table exactly as it is: a token is spent once, and a decision is final.
-- The table's key must be unique, and the database must return rows of its queries.
pub run-decided :
    (sv : Services) (ops : List Op) (d : Db) (a : ApprovalRequest)
    → IsSelecting sv
    → HasKey d
    → Among a d.approvals
    → is_decided a.status ≡ true
    → Among a (run sv ops d).approvals
unfolding run
run-decided sv [] d a sel key m dec = m
run-decided sv (op ∷ ops) d a sel key m dec =
    run-decided sv ops (perform sv op d) a sel (perform-HasKey sv sel op d key)
      (OpenChange-decided d.approvals (perform sv op d).approvals (perform-change sv sel op d key) a
        m dec)
      dec
