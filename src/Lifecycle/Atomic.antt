-- ===== src/Lifecycle/Atomic.antt =====
-- The requests that the endpoints refuse.
use Prim.Native.String.{count}
use legal_ai_copilot.Prelude.{
  ℕ, Option, none, some, ◌≡◌, ap, true, arith, Bool-cases, inl, inr, ltb,
}
use legal_ai_copilot.Database.{Db}
use legal_ai_copilot.Http.{Reply, ok, http, Reply-cases}
use legal_ai_copilot.Services.{Services}
use legal_ai_copilot.Approvals.{approve_via_token, reject_via_token, reissue_token, pass_gate}
use legal_ai_copilot.Approvals.Outcomes.{approve-refused, approve-passed}
use legal_ai_copilot.Approvals.Rejection.{reject-short, reject-refused, reject-passed}
use legal_ai_copilot.ActionAgent.{confirm_brief, approve_workflow, reject_workflow}
use legal_ai_copilot.Goals.{confirm_intent, confirm_plan, consume_token, cancel_goal}
use legal_ai_copilot.Lifecycle.Ops.{Op, perform}

abbrev pub code_of : {A : Type 0} → Reply A → Option ℕ
code_of (ok a) = none
code_of (http code) = some code

-- the status code with which a request is refused
unfoldable pub refusal : Services → Op → Db → Option ℕ
refusal sv (Op.approve req wf token) d = code_of (approve_via_token sv req wf token d).0
refusal sv (Op.reject req wf token reason) d = code_of (reject_via_token sv req wf token reason d).0
refusal sv (Op.reissue req is_admin id hours) d =
    code_of (reissue_token sv req is_admin id hours d).0
refusal sv (Op.confirm_brief_op req wf proceed) d = code_of (confirm_brief req wf proceed d).0
refusal sv (Op.approve_draft req wf draft answers) d =
    code_of (approve_workflow sv req wf draft answers d).0
refusal sv (Op.reject_draft req wf reason) d = code_of (reject_workflow sv req wf reason d).0
refusal sv (Op.confirm_intent_op req ws goal text) d =
    code_of (confirm_intent sv req ws goal text d).0
refusal sv (Op.confirm_plan_op req ws goal token) d =
    code_of (confirm_plan sv req ws goal token d).0
refusal sv (Op.cancel req ws goal) d = code_of (cancel_goal req ws goal d).0
refusal sv (Op.expire_approvals now) d = none
refusal sv (Op.expire_ambiguity now) d = none
refusal sv (Op.process o wf pre) d = none

-- the broker takes the task of the request
unfoldable pub HasBroker : Op → Type 0
HasBroker (Op.approve req wf token) = req.broker_up ≡ true
HasBroker (Op.confirm_brief_op req wf proceed) = req.broker_up ≡ true
HasBroker (Op.approve_draft req wf draft answers) = req.broker_up ≡ true
HasBroker (Op.reject_draft req wf reason) = req.broker_up ≡ true
HasBroker (Op.confirm_plan_op req ws goal token) = req.broker_up ≡ true
HasBroker _ = Unit

-- A request that any of the nine endpoints refuses has changed nothing, where the broker is up.
pub perform-refused :
    (sv : Services) (op : Op) (d : Db) (code : ℕ)
    → HasBroker op
    → refusal sv op d ≡ some code
    → perform sv op d ≡ d
unfolding perform refusal HasBroker
perform-refused sv (Op.approve req wf token) d code up e =
    elim (Reply-cases (pass_gate sv req wf token d).0) [
      | inl (a, h) ↦
          absurd (cc (ap code_of (ap (λ r. r.0) (approve-passed sv req wf token d a h up)), e))
      | inr (c, h) ↦ ap (λ r. r.1) (approve-refused sv req wf token d c h)
    ]
perform-refused sv (Op.reject req wf token reason) d code up e =
    elim (Bool-cases (ltb (count reason) 20)) [
      | inl short ↦ ap (λ r. r.1) (reject-short sv req wf token reason d short)
      | inr long ↦ elim (Reply-cases (pass_gate sv req wf token d).0) [
        | inl (a, h) ↦
            absurd
              (cc (ap code_of (ap (λ r. r.0) (reject-passed sv req wf token reason d a h long)), e))
        | inr (c, h) ↦ reject-refused sv req wf token reason d c h
      ]
    ]
perform-refused sv (Op.reissue req is_admin id hours) d code up e =
    unfold reissue_token in ground arith
perform-refused sv (Op.confirm_brief_op req wf proceed) d code up e =
    unfold confirm_brief in ground arith
perform-refused sv (Op.approve_draft req wf draft answers) d code up e =
    unfold approve_workflow in ground arith
perform-refused sv (Op.reject_draft req wf reason) d code up e =
    unfold reject_workflow in ground arith
perform-refused sv (Op.confirm_intent_op req ws goal text) d code up e =
    unfold confirm_intent in ground arith
perform-refused sv (Op.confirm_plan_op req ws goal token) d code up e =
    unfold confirm_plan consume_token in ground arith
perform-refused sv (Op.cancel req ws goal) d code up e = unfold cancel_goal in ground arith
perform-refused sv (Op.expire_approvals now) d code up e = absurd (cc e)
perform-refused sv (Op.expire_ambiguity now) d code up e = absurd (cc e)
perform-refused sv (Op.process o wf pre) d code up e = absurd (cc e)
